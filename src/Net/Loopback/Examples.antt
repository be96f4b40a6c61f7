-- ===== src/Net/Loopback/Examples.antt =====
-- Seventeen packets through the loopback device.
use sovelma_os.Prelude.{ℕ, ◌≡◌, refl, List, [], ◌∷◌, replicate}
use sovelma_os.Net.Loopback.{new, consume, drain_tx}

abbrev packets : List (List ℕ)
packets = (2 ∷ []) ∷ replicate 16 (1 ∷ [])

sends : (drain_tx (consume 2 (λ b. 7 ∷ b) new)).0 ≡ (7 ∷ 0 ∷ 0 ∷ []) ∷ []
unfolding drain_tx consume new
sends = refl
