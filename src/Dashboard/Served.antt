-- ===== src/Dashboard/Served.antt =====
-- What a step of the simulation computes for one backend.
use load_balancer.Prelude.{◌≡◌, refl, Bool, true, Bool-cases, inl, inr, arith, if◌then◌else◌}
use load_balancer.Double.{Double, literal, ◌⊕◌, ◌≺◌}
use load_balancer.Double.Laws.{IsOrdered, ◌≲◌}
use load_balancer.Dashboard.{Backend, Draw}
use load_balancer.Dashboard.Sim.{raw_load, capped_load, error_of, serve}

module _ {F : Type 0} ⦃d : Double F⦄ (laws : IsOrdered F) where
  open laws use {total, trans, literal_mono, add_mono}

  -- The cap leaves a load of at most 0.85, if it draws 0.03 at most.
  capped_load-le :
      (raw over : F)
      → over ≲ literal 3 100
      → literal {F = F} 80 100 ⊕ literal 3 100 ≲ literal 85 100
      → capped_load raw over ≲ literal 85 100
  unfolding capped_load
  capped_load-le raw over small room = elim (Bool-cases (literal 80 100 ≺ raw)) [
    | inl above ↦ rw above (
        trans (literal 80 100 ⊕ over) (literal 80 100 ⊕ literal 3 100) (literal 85 100)
          (add_mono (literal 80 100) (literal 80 100) over (literal 3 100)
            (literal_mono 80 100 80 100 (omega arith) (omega arith) (omega arith)) small)
          room)
    | inr below ↦ rw below (
        trans raw (literal 80 100) (literal 85 100) (ground arith)
          (literal_mono 80 100 85 100 (omega arith) (omega arith) (omega arith)))
  ]

  -- A load of at most 0.85 is never in the branch for overload.
  error_of-low :
      (is_fail : Bool) (load : F) (draw : Draw F)
      → load ≲ literal 85 100
      → error_of is_fail load draw
        ≡ (if is_fail then literal 14 100 ⊕ draw.fail_noise else draw.error_noise)
  unfolding error_of
  error_of-low is_fail load draw h = rw h refl

  -- For a healthy backend the load is at most 0.85 after the cap, so that its error rate is only drawn,
  -- for the failing backend and for the others: the branch that makes errors out of an overload is never
  -- taken. The cap is reported exactly if the load was above 0.80 before it.
  pub serve_low :
      (is_fail : Bool) (traffic : F) (b : Backend F) (draw : Draw F)
      → b.health ≡ true
      → draw.over ≲ literal 3 100
      → literal {F = F} 80 100 ⊕ literal 3 100 ≲ literal 85 100
      → let r = serve is_fail traffic b draw in
        (r.load ≲ literal 85 100)
        × (r.err ≡ (if is_fail then literal 14 100 ⊕ draw.fail_noise else draw.error_noise))
        × (r.fired ≡ (literal 80 100 ≺ raw_load traffic b draw))
  unfolding serve
  serve_low is_fail traffic b draw up small room =
      let low = capped_load-le (raw_load traffic b draw) draw.over small room in
      rw up (low, error_of-low is_fail _ draw low, refl)
