-- ===== src/Prelude/Maps.antt =====
-- `alloc::collections::BTreeMap`: an association list in the order of its keys.
use mathlib.Core.Path.{◌≡◌, refl, subst}
use mathlib.Core.Logic.{◌↔◌, ◌≢◌, inl, inr}
use mathlib.Core.Bool.{Bool, true, false}
use mathlib.Core.Option.{Option, none, some}
use mathlib.Core.List.{List, [], ◌∷◌, map}
use native.Mathlib.Omega.{arith}
use Prim.Native.Nat.{ℕ}
use sovelma_os.Prelude.Tests.{ltb, ◌==◌ as nat_beq, ==_iff, if◌then◌else◌, Bool-cases}

-- What `Ord` gives: an equality test and a strict order.
pub record Ord (K : Type 0) : Type 0 where
  pub beq : K → K → Bool
  pub blt : K → K → Bool
  pub beq_iff : (a b : K) → (beq a b ≡ true) ↔ (a ≡ b)

instance abbrev pub nat_ord : Ord ℕ
nat_ord = record { beq = nat_beq; blt = ltb; beq_iff = ==_iff }

abbrev pub BTreeMap : Type 0 → Type 0 → Type 0
BTreeMap K V = List (K × V)

module _ {K : Type 0} ⦃o : Ord K⦄ where
  pub beq_refl : (k : K) → o.beq k k ≡ true
  beq_refl k = (o.beq_iff k k).1 refl

  pub beq_ne : (k j : K) → k ≢ j → o.beq k j ≡ false
  beq_ne k j h = ground (arith, o.beq_iff k j)

module _ {K V : Type 0} ⦃o : Ord K⦄ where
  unfoldable pub lookup : K → BTreeMap K V → Option V
  lookup k [] = none
  lookup k ((j, v) ∷ m) = if o.beq j k then some v else lookup k m

  unfoldable pub insert : K → V → BTreeMap K V → BTreeMap K V
  insert k v [] = (k, v) ∷ []
  insert k v ((j, w) ∷ m) =
      let rest = insert k v m in
      if o.beq j k then (k, v) ∷ m else if o.blt k j then (k, v) ∷ (j, w) ∷ m else (j, w) ∷ rest

  unfoldable pub remove : K → BTreeMap K V → BTreeMap K V
  remove k [] = []
  remove k ((j, w) ∷ m) = let rest = remove k m in if o.beq j k then rest else (j, w) ∷ rest

  abbrev pub values : BTreeMap K V → List V
  values = map (λ e. e.1)

  pub lookup-insert :
      (k j : K) (v : V) (m : BTreeMap K V)
      → lookup j (insert k v m) ≡ (if o.beq k j then some v else lookup j m)
  unfolding lookup insert
  lookup-insert k j v [] = refl
  lookup-insert k j v ((i, w) ∷ m) =
      ground (arith, o.beq_iff k j, o.beq_iff i k, o.beq_iff i j, lookup-insert k j v m)

  pub lookup-remove :
      (k j : K) (m : BTreeMap K V)
      → lookup j (remove k m) ≡ (if o.beq k j then none else lookup j m)
  unfolding lookup remove
  lookup-remove k j [] = ground arith
  lookup-remove k j ((i, w) ∷ m) =
      ground (arith, o.beq_iff k j, o.beq_iff i k, o.beq_iff i j, lookup-remove k j m)

  pub lookup-insert_self : (k : K) (v : V) (m : BTreeMap K V) → lookup k (insert k v m) ≡ some v
  lookup-insert_self k v m = ground (arith, lookup-insert k k v m, o.beq_iff k k)

  pub lookup-insert_ne :
      (k j : K) (v : V) (m : BTreeMap K V) → k ≢ j → lookup j (insert k v m) ≡ lookup j m
  lookup-insert_ne k j v m h = ground (arith, lookup-insert k j v m, o.beq_iff k j)

  pub lookup-remove_self : (k : K) (m : BTreeMap K V) → lookup k (remove k m) ≡ none
  lookup-remove_self k m = ground (arith, lookup-remove k k m, o.beq_iff k k)

  pub lookup-remove_ne : (k j : K) (m : BTreeMap K V) → k ≢ j → lookup j (remove k m) ≡ lookup j m
  lookup-remove_ne k j m h = ground (arith, lookup-remove k j m, o.beq_iff k j)

  -- Every value satisfies P.
  abbrev pub AllValues {κ} : (V → Type κ) → BTreeMap K V → Type κ
  AllValues P m = (k : K) (v : V) → lookup k m ≡ some v → P v

  pub AllValues-insert {κ} :
      (P : V → Type κ) (k : K) (v : V) (m : BTreeMap K V)
      → P v
      → AllValues P m
      → AllValues P (insert k v m)
  AllValues-insert P k v m p h j w e = elim (Bool-cases (o.beq k j)) [
    | inl same ↦ let hit : v ≡ w = ground (arith, lookup-insert k j v m) in subst P hit p
    | inr other ↦ h j w (ground (arith, lookup-insert k j v m))
  ]

  pub AllValues-remove {κ} :
      (P : V → Type κ) (k : K) (m : BTreeMap K V) → AllValues P m → AllValues P (remove k m)
  AllValues-remove P k m h j w e = h j w (ground (arith, lookup-remove k j m))
