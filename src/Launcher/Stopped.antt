-- ===== src/Launcher/Stopped.antt =====
-- However the launcher ends, its processes have ended.
use load_balancer.Prelude.{◌+◌, ◌≤◌, ◌≡◌, refl, Bool, false, List, [], ◌++◌, map, length, arith}
use load_balancer.Prelude.All.{All}
use load_balancer.Launcher.Counts.{kills, alive_count}
use load_balancer.Launcher.{Part, Process, Launcher, launch_order}

abbrev pub part_of : Process → Part
part_of p = p.part

-- The parts that are started are the first ones of the order, and each is killed once at most.
pub record IsOrderly (l : Launcher) : Type 0 where
  pub left : List Part
  pub in_order : map part_of l.processes ++ left ≡ launch_order
  pub few_kills : kills l.events + alive_count l.processes ≤ length l.processes

-- No process is left, and no flag.
pub record IsStopped (l : Launcher) : Type 0 where
  pub all_ended : All (λ (p : Process). p.alive ≡ false) l.processes
  pub no_flag : l.flag ≡ false

abbrev new_launcher : Bool → Launcher
new_launcher flag = record { processes = []; flag = flag; events = [] }

nothing-IsOrderly : (flag : Bool) → IsOrderly (new_launcher flag)
unfolding kills alive_count
nothing-IsOrderly flag = record { left = launch_order; in_order = refl; few_kills = omega arith }
