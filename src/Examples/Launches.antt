-- ===== src/Examples/Launches.antt =====
-- The launcher where the load generator ends at once and the proxy has to be killed.
use load_balancer.Prelude.{Bool, true, false}
use load_balancer.Launcher.{Part, backends, proxy, loadgen, Start, stays, exits}

abbrev obeys : Part → Bool
obeys backends = true
obeys proxy = false
obeys loadgen = true

abbrev starts : Part → Start
starts backends = stays
starts proxy = stays
starts loadgen = exits
