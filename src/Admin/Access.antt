-- ===== src/Admin/Access.antt =====
-- demo/proxy.py: who may use the admin endpoint: `_client_ip_from_request`, `_is_ip_allowed`,
-- `_parse_admin_networks`, and the token of `handle_admin`. Reading an address or a network from text
-- is `ipaddress`'s: a function that may raise.
use Prim.Native.String.{String}
use mathlib.Core.List.{reverse}
use text.Mathlib.Text.{◌==◌ as str_eq}
-- An address by its number, of 32 or 128 bits.
use load_balancer.Prelude.{
  true, false, some, none, [], ◌∷◌, Option, List, Bool, ℕ, leb, ◌==◌, ◌/◌, ◌-◌, if◌then◌else◌, ◌||◌,
  drop, ◌^◌, ◌&&◌, ◌+◌,
}

pub data Address : Type 0 where
  v4 : ℕ → Address
  v6 : ℕ → Address

pub record Network : Type 0 where
  pub base : Address
  pub prefix : ℕ

-- The number without its `host` last bits.
abbrev pub network_part : ℕ → ℕ → ℕ
network_part host n = n / 2 ^ host

-- `ip_obj in net`
abbrev pub in_network : Address → Network → Bool
in_network (v4 a) net = elim net.base [
  | v4 b ↦ network_part (32 - net.prefix) a == network_part (32 - net.prefix) b
  | v6 b ↦ false
]
in_network (v6 a) net = elim net.base [
  | v4 b ↦ false
  | v6 b ↦ network_part (128 - net.prefix) a == network_part (128 - net.prefix) b
]

abbrev pub in_some : Address → List Network → Bool
in_some a [] = false
in_some a (net ∷ nets) = in_network a net || in_some a nets

-- An entry that is no network is left out.
unfoldable pub parse_admin_networks : (String → Option Network) → List String → List Network
parse_admin_networks parse [] = []
parse_admin_networks parse (item ∷ items) = elim (parse item) [
  | none ↦ parse_admin_networks parse items
  | some net ↦ net ∷ parse_admin_networks parse items
]

-- The text, if there is one that is not empty.
abbrev pub non_empty : Option String → Option String
non_empty none = none
non_empty (some text) = if str_eq text "" then none else some text

-- `request.remote`, or the name of the transport's peer.
unfoldable pub client_ip : Option String → Option String → Option String
client_ip remote peer = elim (non_empty remote) [
  | some text ↦ some text
  | none ↦ elim peer [ some name ↦ some name | none ↦ remote ]
]

unfoldable pub is_ip_allowed : (String → Option Address) → List Network → Option String → Bool
is_ip_allowed parse [] ip = true
is_ip_allowed parse (net ∷ nets) ip = elim (non_empty ip) [
  | none ↦ false
  | some text ↦ elim (parse text) [ none ↦ false | some a ↦ in_some a (net ∷ nets) ]
]

-- Texts of headers are lists of code points.
abbrev pub lower : ℕ → ℕ
lower c = if leb 65 c && leb c 90 then c + 32 else c

-- `auth.lower().startswith("bearer ")`, by the letters that are left to compare.
pub starts_with : List ℕ → List ℕ → Bool
starts_with [] text = true
starts_with (p ∷ ps) [] = false
starts_with (p ∷ ps) (c ∷ cs) = p == lower c && starts_with ps cs

abbrev pub bearer : List ℕ
bearer = b'b' ∷ b'e' ∷ b'a' ∷ b'r' ∷ b'e' ∷ b'r' ∷ b' ' ∷ []

-- `str.isspace` of one code point.
abbrev pub is_space : ℕ → Bool
is_space c =
    (leb 9 c && leb c 13)
    || (leb 28 c && leb c 32)
    || c == 133
    || c == 160
    || c == 5760
    || (leb 8192 c && leb c 8202)
    || c == 8232
    || c == 8233
    || c == 8239
    || c == 8287
    || c == 12288

pub strip_left : List ℕ → List ℕ
strip_left [] = []
strip_left (c ∷ cs) = if is_space c then strip_left cs else c ∷ cs

unfoldable pub strip : List ℕ → List ℕ
unfolding strip_left
strip text = reverse (strip_left (reverse (strip_left text)))

-- The token that a request carries, from `X-Omega-Admin-Token` and `Authorization`.
unfoldable pub token_of : List ℕ → List ℕ → List ℕ
unfolding strip starts_with
token_of header auth = if starts_with bearer auth then strip (drop 7 auth) else header

abbrev pub equal : List ℕ → List ℕ → Bool
equal [] [] = true
equal (x ∷ xs) (y ∷ ys) = x == y && equal xs ys
equal _ _ = false

-- `if _ADMIN_TOKEN:` with the comparison; an empty token is no token.
unfoldable pub is_token_right : List ℕ → List ℕ → List ℕ → Bool
unfolding token_of
is_token_right [] header auth = true
is_token_right (t ∷ ts) header auth = equal (token_of header auth) (t ∷ ts)
