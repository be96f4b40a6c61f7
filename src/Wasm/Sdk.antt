-- ===== src/Wasm/Sdk.antt =====
-- userspace/sdk/src/lib.rs: the functions that a module is written against, over the host functions
-- that they import. A slice is its pointer and its length, two 32-bit words.
pub mod SemRefinement
mod Examples
use sovelma_os.Prelude.{ℕ, Bool, true, false, ◌==◌, if◌then◌else◌}
use sovelma_os.Prelude.Words.{ℤ, pos, negsuc, as_i32, as_u64}
use sovelma_os.Wasm.Platform.{Platform}
use sovelma_os.Wasm.Host.{World, Outcome, returned}
use sovelma_os.Wasm.Host.Calls.{
  call, print, fs_open, fs_read, fs_mkdir, fs_close, sched_yield, mutex_create, mutex_lock,
  mutex_try_lock, mutex_unlock, sem_create, sem_acquire, sem_try_acquire, sem_release,
}

-- `Result<T, i32>`.
pub data SdkResult (A : Type 0) : Type 0 where
  ok : A → SdkResult A
  err : ℤ → SdkResult A

-- How a function of the SDK ends: with a value, or inside the host call, which trapped.
pub data Called (A : Type 0) : Type 0 where
  answered : A → Called A
  left : Outcome → Called A

pub record MutexHandle : Type 0 where
  pub cap : ℤ

pub record SemHandle : Type 0 where
  pub cap : ℤ

abbrev pub mutex_locked_code : ℤ
mutex_locked_code = negsuc 10

abbrev pub sem_no_permits_code : ℤ
sem_no_permits_code = negsuc 11

abbrev pub invalid_handle_code : ℤ
invalid_handle_code = negsuc 12

-- `result < 0`, and the error code in the low half of the result.
unfoldable pub decode_handle : ℤ → SdkResult ℤ
decode_handle (pos n) = ok (pos n)
decode_handle (negsuc n) = err (as_i32 (as_u64 (negsuc n)))

-- `result == 0`.
unfoldable pub decode_unit : ℤ → SdkResult (Unit {0})
decode_unit (negsuc n) = err (negsuc n)
decode_unit (pos n) = if n == 0 then ok tt else err (pos n)

-- The arms `0`, -(busy + 1), and the rest of a `match`.
unfoldable pub decode_try : (busy : ℕ) → ℤ → SdkResult Bool
decode_try busy (pos n) = if n == 0 then ok true else err (pos n)
decode_try busy (negsuc n) = if n == busy then ok false else err (negsuc n)

abbrev pub map_ok : {A B : Type 0} → (A → B) → SdkResult A → SdkResult B
map_ok f (ok a) = ok (f a)
map_ok f (err e) = err e

module _ (p : Platform) where
  -- A host call whose number is decoded.
  unfoldable pub decoded : {A : Type 0} → (ℤ → A) → Outcome × World p → Called A × World p
  decoded decode (returned z, w) = (answered (decode z), w)
  decoded decode (o, w) = (left o, w)

  -- The source passes the pointer and the length of the text to `print`, which the kernel registers
  -- without parameters: the call is that of the registered function, and the text reaches nobody.
  unfoldable pub print_str : World p → Outcome × World p
  print_str w = call p print w

  unfoldable pub open_path : (dir_cap : ℤ) (ptr len : ℕ) → World p → Outcome × World p
  open_path dir_cap ptr len w = call p (fs_open dir_cap (as_i32 ptr) (as_i32 len)) w

  unfoldable pub read : (file_cap : ℤ) (ptr len offset : ℕ) → World p → Outcome × World p
  read file_cap ptr len offset w =
      call p (fs_read file_cap (as_i32 ptr) (as_i32 len) (as_i32 offset)) w

  unfoldable pub mkdir : (dir_cap : ℤ) (ptr len : ℕ) → World p → Outcome × World p
  mkdir dir_cap ptr len w = call p (fs_mkdir dir_cap (as_i32 ptr) (as_i32 len)) w

  unfoldable pub close : (file_cap : ℤ) → World p → Outcome × World p
  close file_cap w = call p (fs_close file_cap) w

  unfoldable pub yield_now : World p → Outcome × World p
  yield_now w = call p sched_yield w

  unfoldable pub create_mutex : World p → Called (SdkResult MutexHandle) × World p
  unfolding decoded decode_handle
  create_mutex w =
      decoded (λ z. map_ok (λ cap. record { cap = cap }) (decode_handle z)) (call p mutex_create w)

  unfoldable pub lock : MutexHandle → World p → Called (SdkResult (Unit {0})) × World p
  unfolding decoded decode_unit
  lock handle w = decoded decode_unit (call p (mutex_lock handle.cap) w)

  unfoldable pub try_lock : MutexHandle → World p → Called (SdkResult Bool) × World p
  unfolding decoded decode_try
  try_lock handle w = decoded (decode_try 10) (call p (mutex_try_lock handle.cap) w)

  unfoldable pub unlock : MutexHandle → World p → Called (SdkResult (Unit {0})) × World p
  unfolding decoded decode_unit
  unlock handle w = decoded decode_unit (call p (mutex_unlock handle.cap) w)

  -- `permits as i32`.
  unfoldable pub create_sem : (permits : ℕ) → World p → Called (SdkResult SemHandle) × World p
  unfolding decoded decode_handle
  create_sem permits w =
      decoded (λ z. map_ok (λ cap. record { cap = cap }) (decode_handle z))
        (call p (sem_create (as_i32 permits)) w)

  -- The number counts the weak exchanges that fail in the kernel.
  unfoldable pub acquire : ℕ → SemHandle → World p → Called (SdkResult (Unit {0})) × World p
  unfolding decoded decode_unit
  acquire failures handle w = decoded decode_unit (call p (sem_acquire failures handle.cap) w)

  unfoldable pub try_acquire : ℕ → SemHandle → World p → Called (SdkResult Bool) × World p
  unfolding decoded decode_try
  try_acquire failures handle w =
      decoded (decode_try 11) (call p (sem_try_acquire failures handle.cap) w)

  unfoldable pub release : ℕ → SemHandle → World p → Called (SdkResult (Unit {0})) × World p
  unfolding decoded decode_unit
  release failures handle w = decoded decode_unit (call p (sem_release failures handle.cap) w)
