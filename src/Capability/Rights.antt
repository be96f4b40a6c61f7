-- ===== src/Capability/Rights.antt =====
-- Rights as sets of bits: masking a set of rights never adds one.
use sovelma_os.Prelude.{ℕ, ◌≡◌, ◌∙◌, sym, ap, true, bit_and}
use sovelma_os.Prelude.Bits.{bit_and_assoc, bit_and_comm, bit_and_idem}
use sovelma_os.Capability.{BitFlags}

module _ (flags : BitFlags) where
  open flags use {contains, intersection}

  -- What a mask of `p` by `a` contains, `p` contains.
  masked_left : (p a r : ℕ) → bit_and (bit_and p a) r ≡ r → bit_and p r ≡ r
  masked_left p a r h =
      ap (bit_and p) (sym h)
      ∙ ap (bit_and p) (bit_and_assoc p a r)
      ∙ sym (bit_and_assoc p p (bit_and a r))
      ∙ ap (λ q. bit_and q (bit_and a r)) (bit_and_idem p)
      ∙ sym (bit_and_assoc p a r)
      ∙ h

  masked_right : (p a r : ℕ) → bit_and (bit_and p a) r ≡ r → bit_and a r ≡ r
  masked_right p a r h = masked_left a p r (ap (λ q. bit_and q r) (bit_and_comm a p) ∙ h)

  pub contains-intersection_left :
      (p a r : ℕ) → contains (intersection p a) r ≡ true → contains p r ≡ true
  contains-intersection_left p a r h = (flags.contains_iff p r).1 (
      masked_left p a r (
        ap (λ q. bit_and q r) (sym (flags.intersection_eq p a))
        ∙ (flags.contains_iff (intersection p a) r).0 h))

  pub contains-intersection_right :
      (p a r : ℕ) → contains (intersection p a) r ≡ true → contains a r ≡ true
  contains-intersection_right p a r h = (flags.contains_iff a r).1 (
      masked_right p a r (
        ap (λ q. bit_and q r) (sym (flags.intersection_eq p a))
        ∙ (flags.contains_iff (intersection p a) r).0 h))
