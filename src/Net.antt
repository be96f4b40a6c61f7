-- ===== src/Net.antt =====
-- common/src/error.rs: the errors of the network; the modules below are kernel/src/net over the
-- `smoltcp` crate.
pub mod Smoltcp
pub mod Stack
pub mod Dns
pub mod Ipv4
pub mod Dhcp
pub mod E1000
pub mod Loopback
pub mod Socket
use sovelma_os.Prelude.{ℕ}

pub data NetError : Type 0 where
  device_not_ready no_address connection_refused timeout buffer_full : NetError
  invalid_address dns_error dhcp_failed io_error : NetError

-- `Result<T, NetError>`.
pub data NetResult (A : Type 0) : Type 0 where
  ok : A → NetResult A
  err : NetError → NetResult A

-- `[u8; 6]`.
pub record MacAddress : Type 0 where
  pub mac0 : ℕ
  pub mac1 : ℕ
  pub mac2 : ℕ
  pub mac3 : ℕ
  pub mac4 : ℕ
  pub mac5 : ℕ
