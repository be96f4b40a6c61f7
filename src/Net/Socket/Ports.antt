-- ===== src/Net/Socket/Ports.antt =====
-- kernel/src/net/socket.rs: the cycle of ephemeral ports.
use sovelma_os.Prelude.{
  ℕ, zero, suc, ◌+◌, ◌-◌, ◌%◌, ◌≤◌, ◌<◌, ◌≡◌, some, get_elem?, ◌==◌, arith, Bool-cases, inl, inr,
}
use sovelma_os.Net.Socket.{ephemeral_port, ports, first_port}

-- The port after `i` others is the one `i` further in the cycle of 49152 to 65535.
pub get_elem?-ports :
    (count i counter : ℕ)
    → first_port ≤ counter
    → counter ≤ 65535
    → i < count
    → get_elem? (ports count counter) i ≡ some (first_port + (counter - first_port + i) % 16384)
unfolding ports ephemeral_port
get_elem?-ports zero i counter lo hi h = absurd (omega arith)
get_elem?-ports (suc count) zero counter lo hi h = ground arith
get_elem?-ports (suc count) (suc i) counter lo hi h = elim (Bool-cases (counter == 65535)) [
  | inl last ↦ rw last (ground (arith, get_elem?-ports count i first_port))
  | inr more ↦ rw more (ground (arith, get_elem?-ports count i (counter + 1)))
]
