-- ===== src/Net/Ipv4/Examples.antt =====
-- Addresses as they are typed.
use sovelma_os.Prelude.{◌≡◌, refl, [], ◌∷◌, none, some, arith}
use sovelma_os.Net.Smoltcp.{Ipv4Address}
use sovelma_os.Net.Ipv4.{parse_ipv4}
use sovelma_os.Net.Ipv4.RoundTrip.{show_ipv4, parse_ipv4-show_ipv4}

abbrev home : Ipv4Address
home = record { a = 10; b = 0; c = 2; d = 255 }

-- "10.0.2.255".
shown : show_ipv4 home ≡ b'1' ∷ b'0' ∷ b'.' ∷ b'0' ∷ b'.' ∷ b'2' ∷ b'.' ∷ b'2' ∷ b'5' ∷ b'5' ∷ []
unfolding show_ipv4
shown = refl

-- "+1.02.3.4" is taken, and "1.2.3.256" and "1.2.3" are not.
signed :
    parse_ipv4 (b'+' ∷ b'1' ∷ b'.' ∷ b'0' ∷ b'2' ∷ b'.' ∷ b'3' ∷ b'.' ∷ b'4' ∷ [])
    ≡ some (record { a = 1; b = 2; c = 3; d = 4 })
unfolding parse_ipv4
signed = refl

too_large : parse_ipv4 (b'1' ∷ b'.' ∷ b'2' ∷ b'.' ∷ b'3' ∷ b'.' ∷ b'2' ∷ b'5' ∷ b'6' ∷ []) ≡ none
unfolding parse_ipv4
too_large = refl

too_short : parse_ipv4 (b'1' ∷ b'.' ∷ b'2' ∷ b'.' ∷ b'3' ∷ []) ≡ none
unfolding parse_ipv4
too_short = refl

parse_ipv4-show_ipv4_example : parse_ipv4 (show_ipv4 home) ≡ some home
parse_ipv4-show_ipv4_example =
    parse_ipv4-show_ipv4 home (omega arith) (omega arith) (omega arith) (omega arith)
