-- ===== src/Memory/Frames.antt =====
-- No frame is handed out twice.
use sovelma_os.Prelude.{
  ℕ, zero, suc, ◌+◌, ◌-◌, ◌*◌, ◌/◌, ◌%◌, ◌≤◌, ◌<◌, ◌≡◌, ◌∙◌, ap, List, [], ◌∷◌, ◌++◌, some,
  get_elem?, arith, Bool-cases, inl, inr,
}
use sovelma_os.Memory.{
  MemoryRegion, BootInfoFrameAllocator, frame_size, frames_from, region_frames, usable_frames,
  allocate_frame, allocate_frames,
}

-- The regions are whole pages, in the order of their addresses, without overlap.
abbrev pub Ordered : (from : ℕ) → List MemoryRegion → Type 0
Ordered from [] = Unit
Ordered from (r ∷ rs) =
    (from ≤ r.start_addr)
    × (r.start_addr ≤ r.end_addr)
    × (r.start_addr % frame_size ≡ 0)
    × (r.end_addr % frame_size ≡ 0)
    × Ordered r.end_addr rs

abbrev Ascending : (from : ℕ) → List ℕ → Type 0
Ascending from [] = Unit
Ascending from (x ∷ xs) = (from ≤ x) × Ascending (suc x) xs

weaken_bound : (a b : ℕ) (xs : List ℕ) → a ≤ b → Ascending b xs → Ascending a xs
weaken_bound a b [] h t = tt
weaken_bound a b (x ∷ xs) h (l, t) = (omega arith, t)

-- Frames of whole pages before later ones.
Ascending-frames :
    (addr count end : ℕ) (rest : List ℕ)
    → addr % frame_size ≡ 0
    → addr + count * frame_size ≡ end
    → Ascending end rest
    → Ascending addr (frames_from addr count ++ rest)
unfolding frames_from
Ascending-frames addr zero end rest p e t = weaken_bound addr end rest (omega arith) t
Ascending-frames addr (suc count) end rest p e t =
    let more = Ascending-frames (addr + frame_size) count end rest (omega arith) (omega arith) t in
    (
      omega arith,
      weaken_bound _ (addr + frame_size) (frames_from (addr + frame_size) count ++ rest)
          (omega arith) more,
    )

Ascending-usable_frames :
    (from : ℕ) (rs : List MemoryRegion) → Ordered from rs → Ascending from (usable_frames rs)
unfolding usable_frames region_frames
Ascending-usable_frames from [] o = tt
Ascending-usable_frames from (r ∷ rs) (l, m, p, q, o) =
    let rest = Ascending-usable_frames r.end_addr rs o in
    elim (Bool-cases r.is_usable) [
      | inl u ↦ rw u (
          weaken_bound from r.start_addr _ l (
            Ascending-frames r.start_addr
              ((r.end_addr - r.start_addr + (frame_size - 1)) / frame_size) r.end_addr
              (usable_frames rs) p (omega arith) rest))
      | inr u ↦ rw u (weaken_bound from r.end_addr (usable_frames rs) (omega arith) rest)
    ]

Ascending-at :
    (from : ℕ) (xs : List ℕ) (i x : ℕ) → Ascending from xs → get_elem? xs i ≡ some x → from ≤ x
Ascending-at from [] i x t h = absurd (ground arith)
Ascending-at from (y ∷ xs) zero x (l, t) h = ground arith
Ascending-at from (y ∷ xs) (suc i) x (l, t) h = omega (arith, Ascending-at (suc y) xs i x t h)

Ascending-apart :
    (from : ℕ) (xs : List ℕ) (i j x y : ℕ)
    → Ascending from xs
    → i < j
    → get_elem? xs i ≡ some x
    → get_elem? xs j ≡ some y
    → x < y
Ascending-apart from [] i j x y t l h k = absurd (ground arith)
Ascending-apart from (z ∷ xs) i zero x y (m, t) l h k = absurd (omega arith)
Ascending-apart from (z ∷ xs) zero (suc j) x y (m, t) l h k =
    ground (arith, Ascending-at (suc z) xs j y t k)
Ascending-apart from (z ∷ xs) (suc i) (suc j) x y (m, t) l h k =
    Ascending-apart (suc z) xs i j x y t (omega arith) h k

get_elem?-allocate_frames :
    (count i : ℕ) (a : BootInfoFrameAllocator)
    → i < count
    → get_elem? (allocate_frames count a).0 i
      ≡ some (get_elem? (usable_frames a.memory_map) (a.next + i))
unfolding allocate_frames allocate_frame
get_elem?-allocate_frames zero i a h = absurd (omega arith)
get_elem?-allocate_frames (suc count) zero a h =
    ap (λ n. some (get_elem? (usable_frames a.memory_map) n)) (omega arith)
get_elem?-allocate_frames (suc count) (suc i) a h =
    get_elem?-allocate_frames count i (record a { next = a.next + 1 }) (omega arith)
    ∙ ap (λ n. some (get_elem? (usable_frames a.memory_map) n)) (omega arith)

-- Over a memory map of whole pages in order and without overlap, two of the allocations that follow
-- each other never give the same frame: the later one lies above.
pub allocate_frames-apart :
    (a : BootInfoFrameAllocator) (count i j x y : ℕ)
    → Ordered 0 a.memory_map
    → i < j
    → j < count
    → get_elem? (allocate_frames count a).0 i ≡ some (some x)
    → get_elem? (allocate_frames count a).0 j ≡ some (some y)
    → x < y
allocate_frames-apart a count i j x y o l k p q =
    let first = get_elem?-allocate_frames count i a (omega arith) in
    let second = get_elem?-allocate_frames count j a k in
    Ascending-apart 0 (usable_frames a.memory_map) (a.next + i) (a.next + j) x y
      (Ascending-usable_frames 0 a.memory_map o) (omega arith) (ground (arith, first))
      (ground (arith, second))
