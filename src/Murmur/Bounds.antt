-- ===== src/Murmur/Bounds.antt =====
-- The hash is a 32-bit number, as the ring's positions have to be.
use Prim.Native.Nat.{bit_xor}
use load_balancer.Prelude.{ℕ, ◌/◌, ◌^◌, ◌<◌, List, [], ◌∷◌, arith}
use load_balancer.Prelude.Bits.{bit_xor-lt}
use load_balancer.Murmur.{
  u32, unpack, scramble, mix_block, mix_tail, mix_bytes, finalize, murmur3_32,
}

u32-lt : (x : ℕ) → u32 x < 2 ^ 32
u32-lt x = omega arith

scramble-lt : (k : ℕ) → scramble k < 2 ^ 32
unfolding scramble
scramble-lt k = u32-lt _

mix_tail-lt : (h : ℕ) (bytes : List ℕ) → h < 2 ^ 32 → mix_tail h bytes < 2 ^ 32
unfolding mix_tail
mix_tail-lt h [] lt = lt
mix_tail-lt h (a ∷ []) lt = bit_xor-lt 32 _ _ lt (scramble-lt _)
mix_tail-lt h (a ∷ b ∷ []) lt = bit_xor-lt 32 _ _ lt (scramble-lt _)
mix_tail-lt h (a ∷ b ∷ c ∷ []) lt = bit_xor-lt 32 _ _ lt (scramble-lt _)
mix_tail-lt h (a ∷ b ∷ c ∷ d ∷ rest) lt = lt

mix_bytes-lt : (h : ℕ) (bytes : List ℕ) → h < 2 ^ 32 → mix_bytes h bytes < 2 ^ 32
unfolding mix_bytes mix_block
mix_bytes-lt h [] lt = lt
mix_bytes-lt h (a ∷ []) lt = mix_tail-lt h (a ∷ []) lt
mix_bytes-lt h (a ∷ b ∷ []) lt = mix_tail-lt h (a ∷ b ∷ []) lt
mix_bytes-lt h (a ∷ b ∷ c ∷ []) lt = mix_tail-lt h (a ∷ b ∷ c ∷ []) lt
mix_bytes-lt h (a ∷ b ∷ c ∷ d ∷ rest) lt =
    mix_bytes-lt (mix_block h (unpack a b c d)) rest (u32-lt _)

shift_xor-lt : (k x : ℕ) → x < 2 ^ 32 → bit_xor x (x / 2 ^ k) < 2 ^ 32
shift_xor-lt k x lt = bit_xor-lt 32 x (x / 2 ^ k) lt (omega arith)

finalize-lt : (h : ℕ) → finalize h < 2 ^ 32
unfolding finalize
finalize-lt h = shift_xor-lt 16 _ (u32-lt _)

-- For every byte string and every seed the hash lies below 2 ^ 32.
pub murmur3_32-lt : (bytes : List ℕ) (seed : ℕ) → murmur3_32 bytes seed < 2 ^ 32
unfolding murmur3_32
murmur3_32-lt bytes seed = finalize-lt _
