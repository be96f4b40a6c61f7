-- ===== src/Net/Stack.antt =====
-- kernel/src/net/stack.rs: `NetConfig` and `NetworkStack`, the state that the kernel keeps around
-- the interface and the sockets of `smoltcp`. Of the device there is its address.
use sovelma_os.Prelude.{ℕ, Bool, not, List, [], ◌∷◌, Option, none, some, is_empty}
use sovelma_os.Net.{MacAddress, NetResult, ok, err, connection_refused}
use sovelma_os.Net.Smoltcp.{Smoltcp, Ipv4Address, Ipv4Cidr, QueryStart}

pub data NetConfig : Type 0 where
  dhcp : NetConfig
  static_ip :
      (ip : Ipv4Cidr) (gateway : Option Ipv4Address) (dns_servers : List Ipv4Address) → NetConfig

abbrev pub tcp_rx_buffer_size : ℕ
tcp_rx_buffer_size = 4096

abbrev pub tcp_tx_buffer_size : ℕ
tcp_tx_buffer_size = 4096

unfoldable pub config_dns_servers : NetConfig → List Ipv4Address
config_dns_servers dhcp = []
config_dns_servers (static_ip ip gateway dns_servers) = dns_servers

module _ (net : Smoltcp) where
  pub record NetworkStack : Type 0 where
    pub mac_address : MacAddress
    -- The interface: its addresses, and its routes.
    pub ip_addrs : List Ipv4Cidr
    pub routes : net.Routes
    pub sockets : net.Sockets
    pub config : NetConfig
    pub dns_servers : List Ipv4Address

  -- `.ok()`: an error is dropped.
  unfoldable pub push_or_keep : List Ipv4Cidr → Ipv4Cidr → List Ipv4Cidr
  push_or_keep addrs ip = elim (net.push_addr addrs ip) [ none ↦ addrs | some addrs' ↦ addrs' ]

  unfoldable pub add_gateway : Option Ipv4Address → net.Routes → net.Routes
  add_gateway none routes = routes
  add_gateway (some gw) routes = elim (net.add_default_ipv4_route gw routes) [
    | none ↦ routes
    | some routes' ↦ routes'
  ]

  unfoldable pub apply_config : NetConfig → NetworkStack → NetworkStack
  unfolding push_or_keep add_gateway
  apply_config dhcp stack = stack
  apply_config (static_ip ip gateway dns_servers) stack = record stack {
    ip_addrs = push_or_keep stack.ip_addrs ip;
    routes = add_gateway gateway stack.routes;
  }

  -- Over a new interface's routes and an empty set of sockets.
  unfoldable pub new : (mac : MacAddress) → net.Routes → net.Sockets → NetConfig → NetworkStack
  unfolding apply_config config_dns_servers
  new mac routes sockets config = apply_config config (record {
    mac_address = mac;
    ip_addrs = [];
    routes = routes;
    sockets = sockets;
    config = config;
    dns_servers = config_dns_servers config;
  })

  unfoldable pub ip_address : NetworkStack → Option Ipv4Address
  ip_address stack = elim stack.ip_addrs [ [] ↦ none | cidr ∷ rest ↦ some cidr.address ]

  unfoldable pub has_ip : NetworkStack → Bool
  has_ip stack = not (is_empty stack.ip_addrs)

  unfoldable pub set_ip_config : Ipv4Cidr → Option Ipv4Address → NetworkStack → NetworkStack
  unfolding push_or_keep add_gateway
  set_ip_config ip gateway stack = record stack {
    ip_addrs = push_or_keep [] ip;
    routes = add_gateway gateway stack.routes;
  }

  unfoldable pub set_dns_servers : List Ipv4Address → NetworkStack → NetworkStack
  set_dns_servers servers stack = record stack { dns_servers = servers }

  unfoldable pub tcp_socket : NetworkStack → ℕ × NetworkStack
  tcp_socket stack =
      let (handle, sockets') =
        net.add_tcp_socket tcp_rx_buffer_size tcp_tx_buffer_size stack.sockets in
      (handle, record stack { sockets = sockets' })

  unfoldable pub tcp_connect :
      (handle : ℕ)
      → (remote : Ipv4Address) → (remote_port local_port : ℕ) → NetworkStack
      → NetResult (Unit {0}) × NetworkStack
  tcp_connect handle remote remote_port local_port stack =
      elim (net.connect_tcp stack.sockets handle remote remote_port local_port) [
        | none ↦ (err connection_refused, stack)
        | some sockets' ↦ (ok tt, record stack { sockets = sockets' })
      ]

  unfoldable pub start_dns_query :
      (handle : ℕ) → (hostname : List ℕ) → NetworkStack → QueryStart × NetworkStack
  start_dns_query handle hostname stack =
      let (start, sockets') = net.start_query stack.sockets handle hostname in
      (start, record stack { sockets = sockets' })
