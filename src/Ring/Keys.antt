-- ===== src/Ring/Keys.antt =====
-- No two virtual nodes share a key: the text of a key determines backend and number.
use load_balancer.Prelude.{ℕ, ◌∷◌, ◌≡◌, sym, ap, ◌∙◌, List, arith}
use load_balancer.Decimal.{decimal}
use load_balancer.Decimal.Value.{scan, scan-decimal_separator, decimal-injective}
use load_balancer.Ring.{vnode_key}

scan-vnode_key : (i v : ℕ) → scan 0 (vnode_key i v) ≡ (i, b'#' ∷ decimal v)
unfolding vnode_key
scan-vnode_key i v = scan-decimal_separator i b'#' (decimal v) (omega arith)

-- The key of a virtual node, "i#v", determines both numbers: two virtual nodes with one key are
-- the same virtual node of the same backend.
pub vnode_key-injective : (i j v w : ℕ) → vnode_key i v ≡ vnode_key j w → (i ≡ j) × (v ≡ w)
vnode_key-injective i j v w e = (
  ap (λ (p : ℕ × List ℕ). p.0) read,
  decimal-injective v w (cc (ap (λ (p : ℕ × List ℕ). p.1) read)),
)
  where
    read : ◌≡◌ {A = ℕ × List ℕ} (i, b'#' ∷ decimal v) (j, b'#' ∷ decimal w)
    read = sym (scan-vnode_key i v) ∙ ap (scan 0) e ∙ scan-vnode_key j w
