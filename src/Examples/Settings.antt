-- ===== src/Examples/Settings.antt =====
-- A configuration file that sets another port.
use load_balancer.Config.{Setting, section, value}
use load_balancer.Prelude.Dict.{Dict}
use load_balancer.Prelude.{[], ◌∷◌}

abbrev defaults : Dict Setting
defaults =
    ("proxy", section (("host", "127.0.0.1") ∷ ("port", "8080") ∷ []))
    ∷ ("cbf", section (("cap", "0.80") ∷ []))
    ∷ []

abbrev user : Dict Setting
user = ("proxy", section (("port", "9090") ∷ [])) ∷ ("tls", value "off") ∷ []
