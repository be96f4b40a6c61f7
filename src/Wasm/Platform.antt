-- ===== src/Wasm/Platform.antt =====
-- What the host functions use of code outside the repository, as one parameter: the flag
-- operations of `bitflags`, the queue of `crossbeam`, the linear memory of `wasmi`, and of the
-- standard library the UTF-8 check and the allocator behind `vec!`.
pub mod Sample
use sovelma_os.Prelude.{ℕ, ◌<◌, ◌^◌, ◌≡◌, Bool, true, List, length, Option, some}
use sovelma_os.Capability.{BitFlags}
use sovelma_os.ArrayQueue.{ArrayQueue}
use sovelma_os.Sync.Future.{Waker}

pub record Platform : Type 1 where
  pub flags : BitFlags
  pub crate : ArrayQueue Waker
  pub Mem : Type 0
  pub read : Mem → (offset len : ℕ) → Option (List ℕ)
  pub write : Mem → ℕ → List ℕ → Option Mem
  pub is_utf8 : List ℕ → Bool
  -- Whether `vec![0; n]` returns: a vector never exceeds `isize::MAX` bytes.
  pub allocates : ℕ → Bool
  -- A write that succeeds is read back.
  pub read-write :
      (m m' : Mem) (offset : ℕ) (bytes : List ℕ)
      → write m offset bytes ≡ some m'
      → read m' offset (length bytes) ≡ some bytes
  pub allocates_bound : (n : ℕ) → allocates n ≡ true → n < 2 ^ 63
