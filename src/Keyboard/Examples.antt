-- ===== src/Keyboard/Examples.antt =====
-- A stream that waits at an empty queue.
use sovelma_os.Prelude.{ℕ, ◌≡◌, refl, [], ◌∷◌, some, none, arith}
use sovelma_os.ArrayQueue.{list_queue}
use sovelma_os.Keyboard.{Keyboard, poll_next, ready}
use sovelma_os.Keyboard.Wakeups.{Asleep, poll_next-Asleep}

abbrev initial : Keyboard (list_queue ℕ)
initial = record {
  scancode_queue = some (record { contents = []; bound = 100 });
  waker = none;
  woken = [];
}

-- A scancode between the registration and the second `pop`.
late : (poll_next (list_queue ℕ) [] (30 ∷ []) 4 initial).0 ≡ ready 30
unfolding poll_next
late = refl

poll_next-Asleep_example : Asleep (list_queue ℕ) 4 30 (poll_next (list_queue ℕ) [] [] 4 initial).1
unfolding poll_next
poll_next-Asleep_example =
    poll_next-Asleep (list_queue ℕ) [] [] 4 initial (record { contents = []; bound = 100 }) 30 refl
      (omega arith) refl
