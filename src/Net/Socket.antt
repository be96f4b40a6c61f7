-- ===== src/Net/Socket.antt =====
-- kernel/src/net/socket.rs: TCP sockets over the stack, and the ports that they bind. The static
-- counter of ports is passed along.
pub mod Ports
use sovelma_os.Prelude.{ℕ, zero, suc, ◌+◌, ◌==◌, List, [], ◌∷◌, if◌then◌else◌}
use sovelma_os.Net.{NetResult}
use sovelma_os.Net.Smoltcp.{Smoltcp, Ipv4Address}
use sovelma_os.Net.Stack.{NetworkStack, tcp_socket, tcp_connect}

abbrev pub first_port : ℕ
first_port = 49152

-- The port, and the counter afterwards.
unfoldable pub ephemeral_port : (counter : ℕ) → ℕ × ℕ
ephemeral_port counter = (counter, if counter == 65535 then first_port else counter + 1)

pub record TcpSocket : Type 0 where
  pub handle : ℕ
  pub local_port : ℕ

module _ (net : Smoltcp) where
  unfoldable pub new : NetworkStack net → TcpSocket × NetworkStack net
  unfolding tcp_socket
  new stack =
      let (handle, stack') = tcp_socket net stack in
      (record { handle = handle; local_port = 0 }, stack')

  -- With the counter of ports before and after.
  unfoldable pub connect :
      (addr : Ipv4Address)
      → (port : ℕ) → (counter : ℕ) → TcpSocket
      → NetworkStack net
      → NetResult (Unit {0}) × TcpSocket × ℕ × NetworkStack net
  unfolding ephemeral_port tcp_connect
  connect addr port counter socket stack =
      let (local_port, counter') = ephemeral_port counter in
      let (result, stack') = tcp_connect net socket.handle addr port local_port stack in
      (result, record socket { local_port = local_port }, counter', stack')

-- The ports that follow each other from a counter on.
unfoldable pub ports : (count counter : ℕ) → List ℕ
unfolding ephemeral_port
ports zero counter = []
ports (suc count) counter =
    let (port, counter') = ephemeral_port counter in port ∷ ports count counter'
