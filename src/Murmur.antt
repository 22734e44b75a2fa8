-- ===== src/Murmur.antt =====
-- demo/proxy.py, `_murmur3_32`: MurmurHash3 (x86, 32 bit) of a byte string.
-- `x & 0xFFFFFFFF` is `x % 2 ^ 32`, a shift is a product or a quotient by a power of two.
pub mod Bounds
use Prim.Native.Nat.{bit_xor, bit_or}
use load_balancer.Prelude.{ℕ, ◌+◌, ◌*◌, ◌/◌, ◌%◌, ◌^◌, ◌≡◌, refl, List, [], ◌∷◌, length}

abbrev pub u32 : ℕ → ℕ
u32 x = x % 2 ^ 32

-- `((x << r) | (x >> (32 - r))) & 0xFFFFFFFF`, with `s` for `32 - r`.
pub rotate : ℕ → ℕ → ℕ → ℕ
rotate r s x = u32 (bit_or (x * 2 ^ r) (x / 2 ^ s))

-- `struct.unpack("<I", …)`
pub unpack : ℕ → ℕ → ℕ → ℕ → ℕ
unpack a b c d = a + 2 ^ 8 * b + 2 ^ 16 * c + 2 ^ 24 * d

-- What is done to a block `k` before it enters the state.
pub scramble : ℕ → ℕ
unfolding rotate
scramble k = u32 (rotate 15 17 (u32 (k * 0xCC9E2D51)) * 0x1B873593)

pub mix_block : ℕ → ℕ → ℕ
unfolding scramble rotate
mix_block h k = u32 (rotate 13 19 (bit_xor h (scramble k)) * 5 + 0xE6546B64)

-- The tail of one to three bytes, filled up with zeros.
pub mix_tail : ℕ → List ℕ → ℕ
unfolding scramble unpack
mix_tail h (a ∷ []) = bit_xor h (scramble (unpack a 0 0 0))
mix_tail h (a ∷ b ∷ []) = bit_xor h (scramble (unpack a b 0 0))
mix_tail h (a ∷ b ∷ c ∷ []) = bit_xor h (scramble (unpack a b c 0))
mix_tail h _ = h

-- The loop over the blocks of four bytes, then the tail.
pub mix_bytes : ℕ → List ℕ → ℕ
unfolding mix_block mix_tail unpack
mix_bytes h (a ∷ b ∷ c ∷ d ∷ rest) = mix_bytes (mix_block h (unpack a b c d)) rest
mix_bytes h rest = mix_tail h rest

pub finalize : ℕ → ℕ
finalize h0 =
    let h1 = bit_xor h0 (h0 / 2 ^ 16) in
    let h2 = u32 (h1 * 0x85EBCA6B) in
    let h3 = bit_xor h2 (h2 / 2 ^ 13) in let h4 = u32 (h3 * 0xC2B2AE35) in bit_xor h4 (h4 / 2 ^ 16)

unfoldable pub murmur3_32 : List ℕ → ℕ → ℕ
unfolding mix_bytes finalize
murmur3_32 bytes seed = finalize (bit_xor (mix_bytes (u32 seed) bytes) (length bytes))

murmur3_32_empty : murmur3_32 [] 0 ≡ 0
unfolding murmur3_32
murmur3_32_empty = refl

-- "hello", 0x248bfa47 in the reference implementation.
murmur3_32_hello : murmur3_32 (b'h' ∷ b'e' ∷ b'l' ∷ b'l' ∷ b'o' ∷ []) 0 ≡ 0x248bfa47
unfolding murmur3_32
murmur3_32_hello = refl
