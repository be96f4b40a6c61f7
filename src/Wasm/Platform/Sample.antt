-- ===== src/Wasm/Platform/Sample.antt =====
-- A platform whose memory is a list of bytes, which meets the interface.
use sovelma_os.Prelude.{
  ℕ, zero, suc, ◌+◌, ◌≤◌, ◌<◌, ◌^◌, ◌≡◌, refl, ap, true, bit_and, bit_or, ◌==◌, ==_iff, leb, ltb,
  List, [], ◌∷◌, ◌++◌, Option, none, some, length, take, drop, arith, Bool-cases, inl, inr,
  if◌then◌else◌, length-append, length-take, ◌∙◌, subst,
}
use sovelma_os.ArrayQueue.{list_queue}
use sovelma_os.Capability.{BitFlags}
use sovelma_os.Wasm.Platform.{Platform}

abbrev pub bits : BitFlags
bits = record {
  contains = λ a b. bit_and a b == b;
  union = bit_or;
  intersection = bit_and;
  contains_iff = λ a b. ==_iff (bit_and a b) b;
  union_eq = λ a b. refl;
  intersection_eq = λ a b. refl;
}

abbrev pub read_list : List ℕ → ℕ → ℕ → Option (List ℕ)
read_list m offset len =
    if leb (offset + len) (length m) then some (take len (drop offset m)) else none

abbrev pub write_list : List ℕ → ℕ → List ℕ → Option (List ℕ)
write_list m offset bytes =
    if leb (offset + length bytes) (length m)
    then some (take offset m ++ (bytes ++ drop (offset + length bytes) m))
    else none

take-append : (xs ys : List ℕ) → take (length xs) (xs ++ ys) ≡ xs
take-append [] ys = refl
take-append (x ∷ xs) ys = ap (◌∷◌ x) (take-append xs ys)

drop_taken : (n : ℕ) (xs ys : List ℕ) → n ≤ length xs → drop n (take n xs ++ ys) ≡ ys
drop_taken zero xs ys h = refl
drop_taken (suc n) [] ys h = absurd (ground arith)
drop_taken (suc n) (x ∷ xs) ys h = drop_taken n xs ys (ground arith)

pub read_back :
    (m m' : List ℕ) (offset : ℕ) (bytes : List ℕ)
    → write_list m offset bytes ≡ some m'
    → read_list m' offset (length bytes) ≡ some bytes
read_back m m' offset bytes e = elim (Bool-cases (leb (offset + length bytes) (length m))) [
  | inr full ↦ absurd (ground arith)
  | inl room ↦
      let tail = drop (offset + length bytes) m in
      let written : take offset m ++ (bytes ++ tail) ≡ m' = ground arith in
      let whole = take offset m ++ (bytes ++ tail) in
      let fits : offset + length bytes ≤ length whole = ground (
        arith,
        length-append (take offset m) (bytes ++ tail),
        length-append bytes tail,
        length-take offset m,
      ) in
      let back : take (length bytes) (drop offset whole) ≡ bytes =
        ap (take (length bytes)) (drop_taken offset m (bytes ++ tail) (ground arith))
        ∙ take-append bytes tail in
      let inside : leb (offset + length bytes) (length whole) ≡ true = ground arith in
      subst (λ w. read_list w offset (length bytes) ≡ some bytes) written (rw inside (ap some back))
]

pub allocates_less : (n : ℕ) → ltb n (2 ^ 20) ≡ true → n < 2 ^ 63
allocates_less n h = ground arith

abbrev pub platform : Platform
platform = record {
  flags = bits;
  crate = list_queue ℕ;
  Mem = List ℕ;
  read = read_list;
  write = write_list;
  is_utf8 = λ bytes. true;
  allocates = λ n. ltb n (2 ^ 20);
  read-write = read_back;
  allocates_bound = allocates_less;
}
