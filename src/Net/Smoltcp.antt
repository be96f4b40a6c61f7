-- ===== src/Net/Smoltcp.antt =====
-- The operations of the `smoltcp` crate that the network stack calls, as one parameter: its set of
-- sockets, its interface's routes, and its sockets for DNS, DHCP, TCP, UDP and ICMP. The handles
-- that the crate keeps opaque are numbers, and hostnames and packets are lists of bytes.
pub mod Slots
pub mod Sample
use sovelma_os.Prelude.{ℕ, List, Option}

pub record Ipv4Address : Type 0 where
  pub a : ℕ
  pub b : ℕ
  pub c : ℕ
  pub d : ℕ

pub record Ipv4Cidr : Type 0 where
  pub address : Ipv4Address
  pub prefix_len : ℕ

-- `GetQueryResultError` beside the addresses of an answer.
pub data QueryResult : Type 0 where
  answered : List Ipv4Address → QueryResult
  pending failed : QueryResult

pub data StartQueryError : Type 0 where
  no_free_slot invalid_name name_too_long : StartQueryError

pub data QueryStart : Type 0 where
  started : ℕ → QueryStart
  refused : StartQueryError → QueryStart

-- The part of `dhcpv4::Config` that the kernel reads.
pub record LeaseConfig : Type 0 where
  pub address : Ipv4Cidr
  pub router : Option Ipv4Address
  pub dns_servers : List Ipv4Address

pub data DhcpSocketEvent : Type 0 where
  configured : LeaseConfig → DhcpSocketEvent
  deconfigured : DhcpSocketEvent

pub record Smoltcp : Type 1 where
  pub Sockets : Type 0
  pub Routes : Type 0
  -- What the source builds with `Socket::new` and adds to the set: the handle is new.
  pub add_dns_socket : (servers : List Ipv4Address) → Sockets → ℕ × Sockets
  pub add_dhcp_socket : Sockets → ℕ × Sockets
  pub add_tcp_socket : (rx_size tx_size : ℕ) → Sockets → ℕ × Sockets
  pub start_query : Sockets → (socket : ℕ) → (hostname : List ℕ) → QueryStart × Sockets
  -- `none` is a panic: the handle names a slot that is free.
  pub get_query_result : Sockets → (socket query : ℕ) → Option (QueryResult × Sockets)
  pub poll_dhcp : Sockets → (socket : ℕ) → Option DhcpSocketEvent × Sockets
  pub reset_dhcp : Sockets → (socket : ℕ) → Sockets
  -- `none` is an error of the call.
  pub connect_tcp :
      Sockets
      → (socket : ℕ) → (remote : Ipv4Address) → (remote_port local_port : ℕ) → Option Sockets
  -- `addrs.push(ip)` and `add_default_ipv4_route`, whose errors the kernel drops.
  pub push_addr : List Ipv4Cidr → Ipv4Cidr → Option (List Ipv4Cidr)
  pub add_default_ipv4_route : Ipv4Address → Routes → Option Routes
  -- `timestamp - start` of two instants, in microseconds.
  pub elapsed : (now start : ℕ) → ℕ
