-- ===== src/Net/Dhcp.antt =====
-- kernel/src/net/dhcp.rs: `DhcpClient`, with the events that the DHCP socket of `smoltcp` reports.
-- Instants and durations are microseconds.
pub mod Lease
mod Examples
use sovelma_os.Prelude.{ℕ, Bool, true, false, ltb, List, Option, none, some, if◌then◌else◌}
use sovelma_os.Net.Smoltcp.{
  Smoltcp, Ipv4Address, Ipv4Cidr, LeaseConfig, DhcpSocketEvent, configured, deconfigured,
}
use sovelma_os.Net.Stack.{NetworkStack, set_ip_config, set_dns_servers}

pub data DhcpState : Type 0 where
  idle discovering requesting bound link_local : DhcpState

-- The lease duration, which is always `None`, is left out.
pub record DhcpConfig : Type 0 where
  pub ip : Ipv4Address
  pub prefix_len : ℕ
  pub gateway : Option Ipv4Address
  pub dns_servers : List Ipv4Address

unfoldable pub cidr : DhcpConfig → Ipv4Cidr
cidr config = record { address = config.ip; prefix_len = config.prefix_len }

pub data DhcpEvent : Type 0 where
  lease_acquired : DhcpConfig → DhcpEvent
  lease_lost : DhcpEvent
  link_local_fallback : Ipv4Address → DhcpEvent

pub record DhcpClient : Type 0 where
  pub socket : Option ℕ
  pub state : DhcpState
  pub config : Option DhcpConfig
  pub start_time : Option ℕ
  pub link_local_timeout : ℕ

unfoldable pub new : DhcpClient
new = record {
  socket = none;
  state = idle;
  config = none;
  start_time = none;
  link_local_timeout = 10_000_000;
}

-- Whether a lease is still being asked for.
unfoldable pub is_waiting : DhcpState → Bool
is_waiting discovering = true
is_waiting requesting = true
is_waiting _ = false

unfoldable pub config_of : LeaseConfig → DhcpConfig
config_of lease = record {
  ip = lease.address.address;
  prefix_len = lease.address.prefix_len;
  gateway = lease.router;
  dns_servers = lease.dns_servers;
}

module _ (net : Smoltcp) where
  unfoldable pub start :
      (timestamp : ℕ) → DhcpClient → NetworkStack net → DhcpClient × NetworkStack net
  start timestamp client stack =
      let (handle, sockets') = net.add_dhcp_socket stack.sockets in
      (
        record client { socket = some handle; state = discovering; start_time = some timestamp },
        record stack { sockets = sockets' },
      )

  unfoldable pub link_local_address : NetworkStack net → Ipv4Address
  link_local_address stack = record {
    a = 169;
    b = 254;
    c = stack.mac_address.mac4;
    d = stack.mac_address.mac5;
  }

  unfoldable pub fallback_to_link_local :
      DhcpClient → NetworkStack net → DhcpEvent × DhcpClient × NetworkStack net
  unfolding link_local_address set_ip_config
  fallback_to_link_local client stack =
      let ip = link_local_address stack in
      (
        link_local_fallback ip,
        record client { state = link_local },
        set_ip_config net (record { address = ip; prefix_len = 16 }) none stack,
      )

  -- Whether the client has asked for longer than its timeout.
  unfoldable pub timed_out : (timestamp : ℕ) → DhcpClient → Bool
  unfolding is_waiting
  timed_out timestamp client =
      if is_waiting client.state
      then elim client.start_time [
        | none ↦ false
        | some start ↦ ltb client.link_local_timeout (net.elapsed timestamp start)
      ]
      else false

  -- What a poll makes of an event of its socket.
  unfoldable pub handle_event :
      (timestamp : ℕ)
      → Option DhcpSocketEvent
      → DhcpClient
      → NetworkStack net
      → Option DhcpEvent × DhcpClient × NetworkStack net
  unfolding config_of cidr set_ip_config set_dns_servers
  handle_event timestamp none client stack = (none, client, stack)
  handle_event timestamp (some (configured lease)) client stack =
      let config = config_of lease in
      (
        some (lease_acquired config),
        record client { state = bound; config = some config },
        set_dns_servers net config.dns_servers
            (set_ip_config net (cidr config) config.gateway stack),
      )
  handle_event timestamp (some deconfigured) client stack = (
    some lease_lost,
    record client { state = discovering; config = none; start_time = some timestamp },
    stack,
  )

  unfoldable pub poll :
      (timestamp : ℕ)
      → DhcpClient
      → NetworkStack net
      → Option DhcpEvent × DhcpClient × NetworkStack net
  unfolding timed_out fallback_to_link_local handle_event
  poll timestamp client stack = elim client.socket [
    | none ↦ (none, client, stack)
    | some handle ↦
        if timed_out timestamp client
        then (let (event, client', stack') = fallback_to_link_local client stack in
            (some event, client', stack'))
        else (let (event, sockets') = net.poll_dhcp stack.sockets handle in
            handle_event timestamp event client (record stack { sockets = sockets' }))
  ]

  unfoldable pub renew : DhcpClient → NetworkStack net → DhcpClient × NetworkStack net
  renew client stack = elim client.socket [
    | none ↦ (client, stack)
    | some handle ↦ (
      record client { state = discovering },
      record stack { sockets = net.reset_dhcp stack.sockets handle },
    )
  ]
