-- ===== src/Terminal/Commands/Reading.antt =====
-- Which commands the parser gives.
use sovelma_os.Prelude.{
  ℕ, ◌+◌, ◌*◌, ◌-◌, ◌≤◌, ◌<◌, ◌^◌, ◌≡◌, List, [], ◌∷◌, some, arith, Option-cases, inl, inr,
}
use sovelma_os.Net.Ipv4.{parse_digits, parse_unsigned}
use sovelma_os.Terminal.Commands.{connect, command, parse_connect}

parse_digits-bound :
    (max : ℕ) (s : List ℕ) (n m : ℕ) → n ≤ max → parse_digits max s n ≡ some m → m ≤ max
unfolding parse_digits
parse_digits-bound max [] n m h e = ground arith
parse_digits-bound max (c ∷ s) n m h e =
    ground (arith, parse_digits-bound max s (n * 10 + (c - b'0')) m)

parse_unsigned-bound : (max : ℕ) (s : List ℕ) (m : ℕ) → parse_unsigned max s ≡ some m → m ≤ max
unfolding parse_unsigned
parse_unsigned-bound max [] m e = absurd (ground arith)
parse_unsigned-bound max (c ∷ []) m e = ground (arith, parse_digits-bound max (c ∷ []) 0 m)
parse_unsigned-bound max (c ∷ d ∷ s) m e =
    ground (arith, parse_digits-bound max (d ∷ s) 0 m, parse_digits-bound max (c ∷ d ∷ s) 0 m)

-- The port of a connect command has 16 bits.
pub parse_connect-bound :
    (args : List (List ℕ)) (host : List ℕ) (port : ℕ)
    → parse_connect args ≡ command (connect host port)
    → port < 2 ^ 16
unfolding parse_connect
parse_connect-bound [] host port e = absurd (ground arith)
parse_connect-bound (h ∷ []) host port e = absurd (ground arith)
parse_connect-bound (h ∷ p ∷ args) host port e = elim (Option-cases (parse_unsigned 65535 p)) [
  | inl q ↦ absurd (ground (arith, q))
  | inr (n, q) ↦ ground (arith, q, parse_unsigned-bound 65535 p n q)
]
