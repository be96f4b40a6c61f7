-- ===== src/Memory/Examples.antt =====
-- Two usable regions around a reserved one.
use sovelma_os.Prelude.{◌≡◌, ◌<◌, refl, true, false, List, [], ◌∷◌, some, none, arith}
use sovelma_os.Memory.{MemoryRegion, BootInfoFrameAllocator, allocate_frames}
use sovelma_os.Memory.Frames.{allocate_frames-apart}

abbrev regions : List MemoryRegion
regions =
    record { start_addr = 0; end_addr = 0x2000; is_usable = true }
    ∷ record { start_addr = 0x2000; end_addr = 0x5000; is_usable = false }
    ∷ record { start_addr = 0x5000; end_addr = 0x6000; is_usable = true }
    ∷ []

abbrev fresh : BootInfoFrameAllocator
fresh = record { memory_map = regions; next = 0 }

four : (allocate_frames 4 fresh).0 ≡ some 0 ∷ some 0x1000 ∷ some 0x5000 ∷ none ∷ []
unfolding allocate_frames
four = refl

allocate_frames-apart_example : 0x1000 < 0x5000
unfolding allocate_frames
allocate_frames-apart_example =
    allocate_frames-apart fresh 4 1 2 0x1000 0x5000
      (
        omega arith,
        omega arith,
        refl,
        refl,
        (omega arith, omega arith, refl, refl, (omega arith, omega arith, refl, refl, tt)),
      )
      (omega arith) (omega arith) refl refl
