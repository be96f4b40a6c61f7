-- ===== src/Prelude/Bits.antt =====
-- `&` and `|` of machine words, from the recursion on binary digits that the native operations
-- stand for.
use Prim.Native.Nat.{
  ℕ, zero, suc, ◌+◌, ◌-◌, ◌*◌, ◌/◌, ◌%◌, ◌^◌, ◌≤◌, ◌<◌, min, max, bit_and, bit_or, digits,
  bit_and-bitwise, bit_or-bitwise,
}
use mathlib.Core.Path.{◌≡◌, refl, sym, ap, ◌∙◌}
use native.Mathlib.Nat.{pow-suc, one-le-pow, div-div-eq-div-mul}
use native.Mathlib.Omega.{arith}

-- The count of digits to go does not matter once it is large enough.
digits_stable :
    (z : ℕ → ℕ) (f : ℕ → ℕ → ℕ) (n m a b : ℕ) → a ≤ n → a ≤ m → digits z f n a b ≡ digits z f m a b
digits_stable z f zero zero a b p q = refl
digits_stable z f zero (suc m) zero b p q = refl
digits_stable z f zero (suc m) (suc a) b p q = absurd (omega arith)
digits_stable z f (suc n) zero zero b p q = refl
digits_stable z f (suc n) zero (suc a) b p q = absurd (omega arith)
digits_stable z f (suc n) (suc m) zero b p q = refl
digits_stable z f (suc n) (suc m) (suc a) b p q =
    ap (λ d. d * 2 + f (suc a % 2) (b % 2))
      (digits_stable z f n m (suc a / 2) (b / 2) (omega arith) (omega arith))

zero-bit_and : (b : ℕ) → bit_and 0 b ≡ 0
zero-bit_and b = bit_and-bitwise 0 b

zero-bit_or : (b : ℕ) → bit_or 0 b ≡ b
zero-bit_or b = bit_or-bitwise 0 b

-- The lowest digit split off.
pub bit_and_digit : (a b : ℕ) → bit_and a b ≡ bit_and (a / 2) (b / 2) * 2 + min (a % 2) (b % 2)
bit_and_digit zero b = omega (arith, zero-bit_and b, zero-bit_and (b / 2))
bit_and_digit (suc a) b = omega (
  arith,
  bit_and-bitwise (suc a) b,
  bit_and-bitwise (suc a / 2) (b / 2),
  digits_stable (λ b. zero) min a (suc a / 2) (suc a / 2) (b / 2) (omega arith) (omega arith),
)

pub bit_or_digit : (a b : ℕ) → bit_or a b ≡ bit_or (a / 2) (b / 2) * 2 + max (a % 2) (b % 2)
bit_or_digit zero b = omega (arith, zero-bit_or b, zero-bit_or (b / 2))
bit_or_digit (suc a) b = omega (
  arith,
  bit_or-bitwise (suc a) b,
  bit_or-bitwise (suc a / 2) (b / 2),
  digits_stable (λ b. b) max a (suc a / 2) (suc a / 2) (b / 2) (omega arith) (omega arith),
)

bit_and-zero_below : (n a : ℕ) → a ≤ n → bit_and a 0 ≡ 0
bit_and-zero_below zero a h = ground (arith, zero-bit_and 0)
bit_and-zero_below (suc n) zero h = zero-bit_and 0
bit_and-zero_below (suc n) (suc a) h =
    omega (arith, bit_and_digit (suc a) 0, bit_and-zero_below n (suc a / 2) (omega arith))

bit_or-zero_below : (n a : ℕ) → a ≤ n → bit_or a 0 ≡ a
bit_or-zero_below zero a h = ground (arith, zero-bit_or 0)
bit_or-zero_below (suc n) zero h = zero-bit_or 0
bit_or-zero_below (suc n) (suc a) h =
    omega (arith, bit_or_digit (suc a) 0, bit_or-zero_below n (suc a / 2) (omega arith))

pub bit_and-zero : (a : ℕ) → bit_and a 0 ≡ 0
bit_and-zero a = bit_and-zero_below a a (omega arith)

pub bit_or-zero : (a : ℕ) → bit_or a 0 ≡ a
bit_or-zero a = bit_or-zero_below a a (omega arith)

-- The semilattice laws, by induction on a bound of the first number.
comm_below : (n a b : ℕ) → a ≤ n → bit_and a b ≡ bit_and b a
comm_below zero a b h =
    let e : a ≡ 0 = omega arith in ground (arith, zero-bit_and b, bit_and-zero b)
comm_below (suc n) zero b h = zero-bit_and b ∙ sym (bit_and-zero b)
comm_below (suc n) (suc a) b h = omega (
  arith,
  bit_and_digit (suc a) b,
  bit_and_digit b (suc a),
  comm_below n (suc a / 2) (b / 2) (omega arith),
)

pub bit_and_comm : (a b : ℕ) → bit_and a b ≡ bit_and b a
bit_and_comm a b = comm_below a a b (omega arith)

idem_below : (n a : ℕ) → a ≤ n → bit_and a a ≡ a
idem_below zero a h = ground (arith, zero-bit_and 0)
idem_below (suc n) zero h = zero-bit_and 0
idem_below (suc n) (suc a) h =
    omega (arith, bit_and_digit (suc a) (suc a), idem_below n (suc a / 2) (omega arith))

pub bit_and_idem : (a : ℕ) → bit_and a a ≡ a
bit_and_idem a = idem_below a a (omega arith)

-- `&` halves with its arguments.
half-bit_and : (a b : ℕ) → bit_and a b / 2 ≡ bit_and (a / 2) (b / 2)
half-bit_and a b = omega (arith, bit_and_digit a b)

low-bit_and : (a b : ℕ) → bit_and a b % 2 ≡ min (a % 2) (b % 2)
low-bit_and a b = omega (arith, bit_and_digit a b)

assoc_below : (n a b c : ℕ) → a ≤ n → bit_and (bit_and a b) c ≡ bit_and a (bit_and b c)
assoc_below zero a b c h =
    let e : a ≡ 0 = omega arith in
    ground (arith, zero-bit_and b, zero-bit_and c, zero-bit_and (bit_and b c))
assoc_below (suc n) zero b c h =
    ground (arith, zero-bit_and b, zero-bit_and c, zero-bit_and (bit_and b c))
assoc_below (suc n) (suc a) b c h = ground (
  arith,
  bit_and_digit (bit_and (suc a) b) c,
  bit_and_digit (suc a) (bit_and b c),
  half-bit_and (suc a) b,
  half-bit_and b c,
  low-bit_and (suc a) b,
  low-bit_and b c,
  assoc_below n (suc a / 2) (b / 2) (c / 2) (omega arith),
)

pub bit_and_assoc : (a b c : ℕ) → bit_and (bit_and a b) c ≡ bit_and a (bit_and b c)
bit_and_assoc a b c = assoc_below a a b c (omega arith)

-- `(q << k) | r` is a sum where `r` has at most `k` digits.
pub bit_or_shifted : (k q r : ℕ) → r < 2 ^ k → bit_or (q * 2 ^ k) r ≡ q * 2 ^ k + r
bit_or_shifted zero q r h = ground (arith, bit_or-zero q)
bit_or_shifted (suc k) q r h =
    let twice : q * 2 ^ suc k ≡ 2 * (q * 2 ^ k) =
      omega (arith, ap (λ (t : ℕ). q * t) (pow-suc 2 k)) in
    let below : r / 2 < 2 ^ k = omega (arith, pow-suc 2 k) in
    ground (arith, twice, bit_or_digit (q * 2 ^ suc k) r, bit_or_shifted k q (r / 2) below)

-- The low `k` digits of `q * 2 ^ k + r` are `r`.
bit_and_low : (k q r : ℕ) → r < 2 ^ k → bit_and (q * 2 ^ k + r) (2 ^ k - 1) ≡ r
bit_and_low zero q r h = ground (arith, bit_and-zero (q * 1 + r))
bit_and_low (suc k) q r h =
    let twice : q * 2 ^ suc k ≡ 2 * (q * 2 ^ k) =
      omega (arith, ap (λ (t : ℕ). q * t) (pow-suc 2 k)) in
    let below : r / 2 < 2 ^ k = omega (arith, pow-suc 2 k) in
    ground (
      arith,
      twice,
      pow-suc 2 k,
      bit_and_digit (q * 2 ^ suc k + r) (2 ^ suc k - 1),
      bit_and_low k q (r / 2) below,
    )

pub bit_and_mask : (k a : ℕ) → bit_and a (2 ^ k - 1) ≡ a % 2 ^ k
bit_and_mask k a = ground (arith, one-le-pow k 2, bit_and_low k (a / 2 ^ k) (a % 2 ^ k))

-- An even mask reads the digits from the second on.
pub bit_and_even : (a b : ℕ) → bit_and a (2 * b) ≡ bit_and (a / 2) b * 2
bit_and_even a b =
    let half : 2 * b / 2 ≡ b = omega arith in
    let same : bit_and (a / 2) (2 * b / 2) ≡ bit_and (a / 2) b = ap (bit_and (a / 2)) half in
    omega (arith, bit_and_digit a (2 * b), same)

-- A mask that starts at the digit `k` reads the digits from there on.
pub bit_and_shifted : (k a m : ℕ) → bit_and a (m * 2 ^ k) ≡ bit_and (a / 2 ^ k) m * 2 ^ k
bit_and_shifted zero a m = ground arith
bit_and_shifted (suc k) a m =
    let twice : m * 2 ^ suc k ≡ 2 * (m * 2 ^ k) =
      omega (arith, ap (λ (t : ℕ). m * t) (pow-suc 2 k)) in
    let twice' : bit_and (a / 2 / 2 ^ k) m * 2 ^ suc k ≡ bit_and (a / 2 / 2 ^ k) m * 2 ^ k * 2 =
      omega (arith, ap (λ (t : ℕ). bit_and (a / 2 / 2 ^ k) m * t) (pow-suc 2 k)) in
    let halves : a / 2 / 2 ^ k ≡ a / 2 ^ suc k =
      div-div-eq-div-mul a 2 (2 ^ k) ∙ ap (λ (t : ℕ). a / t) (omega (arith, pow-suc 2 k)) in
    ap (bit_and a) twice
    ∙ (bit_and_even a (m * 2 ^ k)
        ∙ (ap (λ (t : ℕ). t * 2) (bit_and_shifted k (a / 2) m)
            ∙ (sym twice' ∙ ap (λ (t : ℕ). bit_and t m * 2 ^ suc k) halves)))

or_comm_below : (n a b : ℕ) → a ≤ n → bit_or a b ≡ bit_or b a
or_comm_below zero a b h =
    let e : a ≡ 0 = omega arith in ground (arith, zero-bit_or b, bit_or-zero b)
or_comm_below (suc n) zero b h = zero-bit_or b ∙ sym (bit_or-zero b)
or_comm_below (suc n) (suc a) b h = omega (
  arith,
  bit_or_digit (suc a) b,
  bit_or_digit b (suc a),
  or_comm_below n (suc a / 2) (b / 2) (omega arith),
)

pub bit_or_comm : (a b : ℕ) → bit_or a b ≡ bit_or b a
bit_or_comm a b = or_comm_below a a b (omega arith)
