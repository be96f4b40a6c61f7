-- ===== src/Keyboard.antt =====
-- kernel/src/task/keyboard.rs: the queue of scancodes between the interrupt handler and the stream.
-- The queue is `crossbeam`'s; the cell for one waker is that of `futures_util`: it holds the waker
-- that was registered last, and waking it empties it.
pub mod Wakeups
mod Examples
use sovelma_os.Prelude.{ℕ, List, [], ◌∷◌, Option, none, some}
use sovelma_os.ArrayQueue.{ArrayQueue}
use sovelma_os.Sync.Future.{Waker}

-- The statics, and the wakers that were woken, the latest first.
module _ (crate : ArrayQueue ℕ) where
  pub record Keyboard : Type 0 where
    pub scancode_queue : Option crate.Queue
    pub waker : Option Waker
    pub woken : List Waker

  -- `ScancodeStream::new`.
  unfoldable pub new_stream : Keyboard → Keyboard
  new_stream k = elim k.scancode_queue [
    | none ↦ record k { scancode_queue = some (crate.new 100) }
    | some queue ↦ k
  ]

  -- `WAKER.wake()`.
  unfoldable pub wake : Keyboard → Keyboard
  wake k = elim k.waker [ none ↦ k | some w ↦ record k { waker = none; woken = w ∷ k.woken } ]

  unfoldable pub add_scancode : ℕ → Keyboard → Keyboard
  unfolding wake
  add_scancode scancode k = elim k.scancode_queue [
    | none ↦ k
    | some queue ↦ elim (crate.push queue scancode) [
      | none ↦ k
      | some queue' ↦ wake (record k { scancode_queue = some queue' })
    ]
  ]

  pub data StreamPoll : Type 0 where
    ready : ℕ → StreamPoll
    pending : StreamPoll
    -- `expect("not initialized")`.
    panicked : StreamPoll

  -- The interrupts between two steps of a poll.
  unfoldable pub interrupts : List ℕ → Keyboard → Keyboard
  unfolding add_scancode
  interrupts [] k = k
  interrupts (c ∷ cs) k = interrupts cs (add_scancode c k)

  -- The second `pop`, after the waker was registered.
  unfoldable pub poll_again : Keyboard → StreamPoll × Keyboard
  poll_again k = elim k.scancode_queue [
    | none ↦ (panicked, k)
    | some queue ↦ elim (crate.pop queue) [
      | none ↦ (pending, k)
      | some (scancode, queue') ↦
          (ready scancode, record k { scancode_queue = some queue'; waker = none })
    ]
  ]

  -- `poll_next`, with the scancodes that arrive after its first `pop` and after it has registered.
  unfoldable pub poll_next : (before after : List ℕ) → Waker → Keyboard → StreamPoll × Keyboard
  unfolding interrupts poll_again
  poll_next before after w k = elim k.scancode_queue [
    | none ↦ (panicked, k)
    | some queue ↦ elim (crate.pop queue) [
      | some (scancode, queue') ↦ (ready scancode, record k { scancode_queue = some queue' })
      | none ↦ poll_again (interrupts after (record (interrupts before k) { waker = some w }))
    ]
  ]
