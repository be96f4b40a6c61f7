-- ===== src/Fs/RamFs/Examples.antt =====
-- A file system with one file, at work. The path "a/b" is 97, 47, 98.
use sovelma_os.Prelude.{
  ℕ, ◌+◌, ◌≡◌, ◌≢◌, refl, List, [], ◌∷◌, none, some, get_elem?, ltb, if◌then◌else◌, replicate,
  arith, ◌⊎◌,
}
use sovelma_os.Prelude.Maps.{nat_ord, lookup, insert}
use sovelma_os.Fs.Path.{parts, split, drop_empty, split_last, Name-beq, Name-blt}
use sovelma_os.Fs.RamFs.{
  RamFs, NodeId, ok, root, new, add_file, enter_or_create, make_parents, put_file, walk, open_path,
  open_at, mkdir_at, resolve_path, read, base_of,
}
use sovelma_os.Fs.RamFs.Parents.{IsBlocked}
use sovelma_os.Fs.RamFs.Files.{read-open_path-add_file, KeepsFiles, add_file-KeepsFiles}
use sovelma_os.Fs.RamFs.Directories.{MkdirOutcome, mkdir_at-MkdirOutcome}
use sovelma_os.Fs.RamFs.Invariant.{
  IsWellFormed, new-IsWellFormed, open_path-IsWellFormed, add_file-IsWellFormed,
}
use sovelma_os.Fs.RamFs.Handles.{
  adds, opens, opens_at, makes_at, closes, run, run-IsWellFormed, read-undisturbed,
}
use sovelma_os.Fs.RamFs.Collision.{open_path-collides}

abbrev a_b : List ℕ
a_b = 97 ∷ 47 ∷ 98 ∷ []

abbrev bytes : List ℕ
bytes = 1 ∷ 2 ∷ 3 ∷ []

read-open_path-add_file_example :
    let (r, fs') = open_path (add_file new a_b bytes) a_b in
    IsBlocked new.nodes root ((97 ∷ []) ∷ [])
    ⊎ ((r ≡ ok 1)
        × (copied : List ℕ) × (read fs' 1 2 1 ≡ ok copied)
        × ((i : ℕ) → get_elem? copied i ≡ (if ltb i 2 then get_elem? bytes (1 + i) else none)))
unfolding new split split_last parts
read-open_path-add_file_example =
    read-open_path-add_file new a_b bytes ((97 ∷ []) ∷ []) (98 ∷ []) 2 1 new-IsWellFormed.store refl

add_file-KeepsFiles_example : KeepsFiles new.nodes (add_file new a_b bytes).nodes
add_file-KeepsFiles_example = add_file-KeepsFiles new a_b bytes new-IsWellFormed.store

mkdir_at-MkdirOutcome_example :
    ((start : NodeId) × (base_of new 0 ≡ some start)
      × MkdirOutcome new start (parts a_b) (mkdir_at new 0 a_b))
    ⊎ ((base_of new 0 ≡ none) × ((mkdir_at new 0 a_b).1 ≡ new) × ((mkdir_at new 0 a_b).0 ≢ ok tt))
mkdir_at-MkdirOutcome_example = mkdir_at-MkdirOutcome new 0 a_b new-IsWellFormed.store

run-IsWellFormed_example : IsWellFormed (
    run
      (adds a_b bytes
        ∷ opens (97 ∷ [])
        ∷ opens_at 1 (98 ∷ [])
        ∷ makes_at 1 (99 ∷ [])
        ∷ closes 1
        ∷ [])
      new)
run-IsWellFormed_example =
    run-IsWellFormed
      (adds a_b bytes
        ∷ opens (97 ∷ [])
        ∷ opens_at 1 (98 ∷ [])
        ∷ makes_at 1 (99 ∷ [])
        ∷ closes 1
        ∷ [])
      new new-IsWellFormed

-- The file is open under handle 1.
abbrev opened : RamFs
opened = (open_path (add_file new a_b bytes) a_b).1

opened_is_fine : IsWellFormed opened
opened_is_fine =
    open_path-IsWellFormed (add_file new a_b bytes) a_b
      (add_file-IsWellFormed new a_b bytes new-IsWellFormed)

opened_reads : read opened 1 3 0 ≡ ok bytes
unfolding new open_path resolve_path add_file walk read lookup insert split parts split_last
    enter_or_create make_parents put_file drop_empty Name-beq Name-blt
opened_reads = refl

read-undisturbed_example :
    (read (add_file opened a_b (9 ∷ [])) 1 3 0 ≡ ok bytes)
    × (read (mkdir_at opened 0 a_b).1 1 3 0 ≡ ok bytes)
read-undisturbed_example =
    read-undisturbed opened a_b (9 ∷ []) 0 1 3 0 bytes opened_is_fine opened_reads

-- The directory "a" is open under handle 1, and `open_at` has given out 10000 for the file "b" in it.
abbrev based : RamFs
based = (open_path (add_file new a_b bytes) (97 ∷ [])).1

abbrev given : RamFs
given = (open_at based 1 (98 ∷ [])).1

given_out : open_at based 1 (98 ∷ []) ≡ (ok 10000, given)
unfolding new open_path open_at resolve_path add_file walk lookup insert split parts split_last
    enter_or_create make_parents put_file drop_empty Name-beq Name-blt
given_out = refl

found : resolve_path based (97 ∷ []) ≡ ok 1
unfolding new open_path resolve_path add_file walk lookup insert split parts split_last
    enter_or_create make_parents put_file drop_empty Name-beq Name-blt
found = refl

counts_from : based.next_handle ≡ 2
unfolding new open_path resolve_path add_file walk lookup insert split parts split_last
    enter_or_create make_parents put_file drop_empty Name-beq Name-blt
counts_from = refl

open_path-collides_example :
    let fs = run (replicate 9998 (opens (97 ∷ []))) given in
    (start node : NodeId) × (lookup 1 based.open_handles ≡ some start)
    × (walk based.nodes start (parts (98 ∷ [])) ≡ ok node)
    × (lookup 10000 fs.open_handles ≡ some node)
    × ((open_path fs (97 ∷ [])).0 ≡ ok 10000)
    × (lookup 10000 (open_path fs (97 ∷ [])).1.open_handles ≡ some 1)
open_path-collides_example =
    open_path-collides 9998 based 1 (98 ∷ []) (97 ∷ []) 10000 given 1 given_out found
      (omega (arith, counts_from)) (omega arith)
