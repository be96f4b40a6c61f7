-- ===== src/Net/Ipv4.antt =====
-- kernel/src/net/dns.rs: `parse_ipv4`, with `str::split`, and `str::parse` for unsigned integers,
-- which takes a `+` before the digits and any leading zeros. The other direction is the way
-- `smoltcp` shows an address: four decimal numbers with dots between them.
pub mod RoundTrip
mod Examples
use sovelma_os.Prelude.{
  ℕ, ◌+◌, ◌-◌, ◌*◌, Bool, length, ◌||◌, List, [], ◌∷◌, ◌++◌, Option, none, some, ltb, leb, ◌==◌,
  if◌then◌else◌,
}
use sovelma_os.Net.Smoltcp.{Ipv4Address}

-- The digits from left to right, each step with a check that the number fits its type.
unfoldable pub parse_digits : (max : ℕ) → List ℕ → ℕ → Option ℕ
parse_digits max [] n = some n
parse_digits max (c ∷ s) n =
    let rest = parse_digits max s (n * 10 + (c - b'0')) in
    if ltb c b'0' || ltb b'9' c then none else if ltb max (n * 10 + (c - b'0')) then none else rest

-- An optional sign, and at least one digit.
unfoldable pub parse_unsigned : (max : ℕ) → List ℕ → Option ℕ
unfolding parse_digits
parse_unsigned max [] = none
parse_unsigned max (c ∷ []) = if c == b'+' then none else parse_digits max (c ∷ []) 0
parse_unsigned max (c ∷ d ∷ s) =
    if c == b'+' then parse_digits max (d ∷ s) 0 else parse_digits max (c ∷ d ∷ s) 0

-- `split('.')`: at least one part.
unfoldable pub split_dots : List ℕ → List (List ℕ)
split_dots [] = [] ∷ []
split_dots (c ∷ s) =
    let parts = split_dots s in
    if c == b'.' then [] ∷ parts else elim parts [ [] ↦ (c ∷ []) ∷ [] | p ∷ ps ↦ (c ∷ p) ∷ ps ]

-- `filter_map(|p| p.parse::<u8>().ok())`.
unfoldable pub octets : List (List ℕ) → List ℕ
unfolding parse_unsigned
octets [] = []
octets (p ∷ ps) = elim (parse_unsigned 255 p) [ none ↦ octets ps | some n ↦ n ∷ octets ps ]

-- `octets.len() != 4`, and the address of four octets.
unfoldable pub address_of : List ℕ → Option Ipv4Address
address_of (a ∷ b ∷ c ∷ d ∷ []) = some (record { a = a; b = b; c = c; d = d })
address_of _ = none

unfoldable pub has_four : List (List ℕ) → Bool
has_four ps = length ps == 4

unfoldable pub parse_ipv4 : List ℕ → Option Ipv4Address
unfolding split_dots octets address_of has_four
parse_ipv4 s = if has_four (split_dots s) then address_of (octets (split_dots s)) else none
