-- ===== src/Net/Ipv4/RoundTrip.antt =====
-- `parse_ipv4` on what an address is written as.
use sovelma_os.Prelude.{
  ℕ, ◌+◌, ◌/◌, ◌%◌, ◌<◌, ◌≡◌, ◌≢◌, refl, List, [], ◌∷◌, ◌++◌, some, ltb, All, arith, if◌then◌else◌,
  Bool-cases, inl, inr,
}
use sovelma_os.Net.Smoltcp.{Ipv4Address}
use sovelma_os.Net.Ipv4.{
  parse_digits, parse_unsigned, split_dots, octets, address_of, has_four, parse_ipv4,
}

-- A byte in decimal, without leading zeros.
unfoldable pub show_octet : ℕ → List ℕ
show_octet n =
    if ltb n 10
    then (b'0' + n) ∷ []
    else if ltb n 100
    then (b'0' + n / 10) ∷ (b'0' + n % 10) ∷ []
    else (b'0' + n / 100) ∷ (b'0' + n / 10 % 10) ∷ (b'0' + n % 10) ∷ []

unfoldable pub show_ipv4 : Ipv4Address → List ℕ
unfolding show_octet
show_ipv4 ip =
    show_octet ip.a
    ++ (b'.' ∷ show_octet ip.b ++ (b'.' ∷ show_octet ip.c ++ (b'.' ∷ show_octet ip.d)))

parse_unsigned-show_octet : (n : ℕ) → n < 256 → parse_unsigned 255 (show_octet n) ≡ some n
unfolding parse_unsigned parse_digits show_octet
parse_unsigned-show_octet n h = elim (Bool-cases (ltb n 10)) [
  | inl p ↦ ground arith
  | inr p ↦ elim (Bool-cases (ltb n 100)) [ inl q ↦ ground arith | inr q ↦ ground arith ]
]

abbrev Undotted : List ℕ → Type 0
Undotted = All (λ c. c ≢ b'.')

show_octet-Undotted : (n : ℕ) → n < 256 → Undotted (show_octet n)
unfolding show_octet
show_octet-Undotted n h = ground arith

split_dots-append : (p s : List ℕ) → Undotted p → split_dots (p ++ (b'.' ∷ s)) ≡ p ∷ split_dots s
unfolding split_dots
split_dots-append [] s u = refl
split_dots-append (c ∷ p) s (n, u) = ground (arith, split_dots-append p s u)

split_dots-Undotted : (p : List ℕ) → Undotted p → split_dots p ≡ p ∷ []
unfolding split_dots
split_dots-Undotted [] u = refl
split_dots-Undotted (c ∷ p) (n, u) = ground (arith, split_dots-Undotted p u)

-- Parsing what an address of four bytes is written as gives the address.
pub parse_ipv4-show_ipv4 :
    (ip : Ipv4Address)
    → ip.a < 256
    → ip.b < 256
    → ip.c < 256
    → ip.d < 256
    → parse_ipv4 (show_ipv4 ip) ≡ some ip
unfolding parse_ipv4 show_ipv4 has_four octets address_of
parse_ipv4-show_ipv4 ip ha hb hc hd = ground (
  arith,
  split_dots-append (show_octet ip.a)
      (show_octet ip.b ++ (b'.' ∷ show_octet ip.c ++ (b'.' ∷ show_octet ip.d)))
      (show_octet-Undotted ip.a ha),
  split_dots-append (show_octet ip.b) (show_octet ip.c ++ (b'.' ∷ show_octet ip.d))
      (show_octet-Undotted ip.b hb),
  split_dots-append (show_octet ip.c) (show_octet ip.d) (show_octet-Undotted ip.c hc),
  split_dots-Undotted (show_octet ip.d) (show_octet-Undotted ip.d hd),
  parse_unsigned-show_octet ip.a ha,
  parse_unsigned-show_octet ip.b hb,
  parse_unsigned-show_octet ip.c hc,
  parse_unsigned-show_octet ip.d hd,
)
