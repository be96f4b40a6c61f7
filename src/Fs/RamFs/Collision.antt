-- ===== src/Fs/RamFs/Collision.antt =====
-- kernel/src/fs/ramfs.rs: the two counters that `open` and `open_at` take their handles from, and
-- the one table that both put them in.
use sovelma_os.Prelude.{
  ℕ, zero, suc, ◌+◌, ◌≤◌, ◌<◌, ◌≡◌, refl, ◌∙◌, List, some, replicate, ◌^◌, arith, Option-cases, inl,
  inr,
}
use sovelma_os.Prelude.Maps.{lookup, insert, nat_ord, lookup-insert, lookup-insert_self}
use sovelma_os.Fs.Path.{parts}
use sovelma_os.Fs.RamFs.{
  RamFs, NodeId, FileHandle, Result, ok, err, open_path, open_at, resolve_path, walk, bump,
}
use sovelma_os.Fs.RamFs.Handles.{opens, run, step}

-- The counter and the table of `open` after one more open.
open_path-counts :
    (fs : RamFs) (path : List ℕ) (id : NodeId)
    → resolve_path fs path ≡ ok id
    → open_path fs path ≡ (
      ok fs.next_handle,
      record fs {
        open_handles = insert fs.next_handle id fs.open_handles;
        next_handle = bump fs.next_handle;
      },
    )
unfolding open_path
open_path-counts fs path id found = rw (found, open_path) refl

-- What a number of opens of one path leaves, for a handle that they have not reached.
record Counted (n : ℕ) (fs fs' : RamFs) (h : FileHandle) : Type 0 where
  same_nodes : fs'.nodes ≡ fs.nodes
  counter : fs'.next_handle ≡ fs.next_handle + n
  untouched : lookup h fs'.open_handles ≡ lookup h fs.open_handles

opens-Counted :
    (n : ℕ) (fs : RamFs) (path : List ℕ) (id : NodeId) (h : FileHandle)
    → resolve_path fs path ≡ ok id
    → fs.next_handle + n ≤ h
    → h < 2 ^ 32
    → Counted n fs (run (replicate n (opens path)) fs) h
unfolding run step resolve_path
opens-Counted zero fs path id h found le lt = record {
  same_nodes = refl;
  counter = omega arith;
  untouched = refl;
}
opens-Counted (suc n) fs path id h found le lt =
    let opened = open_path-counts fs path id found in
    let fs' : RamFs = (open_path fs path).1 in
    let here : (fs'.nodes ≡ fs.nodes)
        × (fs'.next_handle ≡ fs.next_handle + 1)
        × (lookup h fs'.open_handles ≡ lookup h fs.open_handles) =
      (
        ground (arith, opened),
        ground (arith, opened),
        ground (arith, opened, lookup-insert fs.next_handle h id fs.open_handles),
      ) in
    let after = opens-Counted n fs' path id h (ground (arith, here)) (omega (arith, here.1)) lt in
    record {
      same_nodes = after.same_nodes ∙ here.0;
      counter = omega (arith, after.counter, here.1);
      untouched = after.untouched ∙ here.2;
    }

-- What `open_at` leaves when it gives out a handle.
record OpenedAt (fs : RamFs) (base : FileHandle) (at : List ℕ) (h : FileHandle) (fs' : RamFs)
    : Type 0 where
  start : NodeId
  node : NodeId
  based : lookup base fs.open_handles ≡ some start
  walked : walk fs.nodes start (parts at) ≡ ok node
  names : lookup h fs'.open_handles ≡ some node
  same_nodes : fs'.nodes ≡ fs.nodes
  same_counter : fs'.next_handle ≡ fs.next_handle

open_at-OpenedAt :
    (fs : RamFs) (base : FileHandle) (at : List ℕ) (h : FileHandle) (fs' : RamFs)
    → open_at fs base at ≡ (ok h, fs')
    → OpenedAt fs base at h fs'
unfolding open_at
open_at-OpenedAt fs base at h fs' e = elim (Option-cases (lookup base fs.open_handles)) [
  | inl missing ↦ absurd (ground arith)
  | inr (start, based) ↦ at_walk start based (walk fs.nodes start (parts at)) refl
]
  where
    at_walk :
        (start : NodeId)
        → lookup base fs.open_handles ≡ some start
        → (r : Result NodeId) → walk fs.nodes start (parts at) ≡ r
        → OpenedAt fs base at h fs'
    at_walk start based (err x) walked = absurd (ground arith)
    at_walk start based (ok node) walked = record {
      start = start;
      node = node;
      based = based;
      walked = walked;
      names = ground (arith, lookup-insert_self fs.next_handle_at node fs.open_handles);
      same_nodes = ground arith;
      same_counter = ground arith;
    }

-- The counters of `open` and `open_at` collide. Let `open_at` give out a handle that lies n past the
-- counter of `open`, below 2^32, and let a path of the file system resolve. The handle names the node
-- that `open_at` found below its base, and still does after n opens of the path; one more open of
-- the path gives out the very same handle, and after it the handle names the node of the path.
pub open_path-collides :
    (n : ℕ) (fs : RamFs) (base : FileHandle) (at path : List ℕ) (h : FileHandle) (fs' : RamFs)
    (other : NodeId)
    → open_at fs base at ≡ (ok h, fs')
    → resolve_path fs path ≡ ok other
    → h ≡ fs.next_handle + n
    → h < 2 ^ 32
    → let fs'' = run (replicate n (opens path)) fs' in
      (start node : NodeId) × (lookup base fs.open_handles ≡ some start)
      × (walk fs.nodes start (parts at) ≡ ok node)
      × (lookup h fs''.open_handles ≡ some node)
      × ((open_path fs'' path).0 ≡ ok h)
      × (lookup h (open_path fs'' path).1.open_handles ≡ some other)
unfolding resolve_path
open_path-collides n fs base at path h fs' other given found past room =
    let o = open_at-OpenedAt fs base at h fs' given in
    let found' : resolve_path fs' path ≡ ok other = ground (arith, o.same_nodes) in
    let c = opens-Counted n fs' path other h found' (omega (arith, o.same_counter)) room in
    let fs'' : RamFs = run (replicate n (opens path)) fs' in
    let reached : fs''.next_handle ≡ h = omega (arith, c.counter, o.same_counter) in
    let opened = open_path-counts fs'' path other (ground (arith, c.same_nodes)) in
    (
      o.start,
      o.node,
      o.based,
      o.walked,
      c.untouched ∙ o.names,
      ground (arith, opened, reached),
      ground (arith, opened, reached, lookup-insert_self h other fs''.open_handles),
    )
