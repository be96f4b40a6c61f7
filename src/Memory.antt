-- ===== src/Memory.antt =====
-- kernel/src/memory.rs: the allocator of physical frames over the memory map of the bootloader.
pub mod Frames
mod Examples
use sovelma_os.Prelude.{
  ℕ, zero, suc, ◌+◌, ◌-◌, ◌/◌, ◌%◌, Bool, List, [], ◌∷◌, ◌++◌, Option, get_elem?, if◌then◌else◌,
}

abbrev pub frame_size : ℕ
frame_size = 4096

-- A region of the memory map, from its first address to before its end.
pub record MemoryRegion : Type 0 where
  pub start_addr : ℕ
  pub end_addr : ℕ
  pub is_usable : Bool

pub record BootInfoFrameAllocator : Type 0 where
  pub memory_map : List MemoryRegion
  pub next : ℕ

unfoldable pub init : List MemoryRegion → BootInfoFrameAllocator
init memory_map = record { memory_map = memory_map; next = 0 }

-- `PhysFrame::containing_address`, by the address of the frame.
abbrev pub containing_address : ℕ → ℕ
containing_address addr = addr - addr % frame_size

-- `(start..end).step_by(4096)`, as frames.
unfoldable pub frames_from : (addr count : ℕ) → List ℕ
frames_from addr zero = []
frames_from addr (suc count) = containing_address addr ∷ frames_from (addr + frame_size) count

unfoldable pub region_frames : MemoryRegion → List ℕ
unfolding frames_from
region_frames r =
    frames_from r.start_addr ((r.end_addr - r.start_addr + (frame_size - 1)) / frame_size)

unfoldable pub usable_frames : List MemoryRegion → List ℕ
unfolding region_frames
usable_frames [] = []
usable_frames (r ∷ rs) =
    if r.is_usable then region_frames r ++ usable_frames rs else usable_frames rs

-- The counter, a usize that advances by one for each request, does not come near its bound.
unfoldable pub allocate_frame : BootInfoFrameAllocator → Option ℕ × BootInfoFrameAllocator
unfolding usable_frames
allocate_frame a = (get_elem? (usable_frames a.memory_map) a.next, record a { next = a.next + 1 })

-- Allocations one after another.
unfoldable pub allocate_frames :
    (count : ℕ) → BootInfoFrameAllocator → List (Option ℕ) × BootInfoFrameAllocator
unfolding allocate_frame
allocate_frames zero a = ([], a)
allocate_frames (suc count) a =
    let (frame, a') = allocate_frame a in
    let (frames, a'') = allocate_frames count a' in (frame ∷ frames, a'')
