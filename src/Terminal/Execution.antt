-- ===== src/Terminal/Execution.antt =====
-- kernel/src/terminal/commands.rs: the commands that change the state of the network. What they print
-- is left out, but for the answer that decides it.
use sovelma_os.Prelude.{ℕ, ◌+◌, ◌%◌, List, none, some, if◌then◌else◌}
use sovelma_os.Net.{NetError, ok, err}
use sovelma_os.Net.Smoltcp.{Smoltcp, Ipv4Address}
use sovelma_os.Net.Stack.{NetworkStack, tcp_socket, tcp_connect}
use sovelma_os.Net.Dns.{DnsResolver, DnsQueryHandle}
use sovelma_os.Net.Dns
use sovelma_os.Net.Dhcp.{DhcpClient}
use sovelma_os.Net.Dhcp
use sovelma_os.Net.Ipv4.{parse_ipv4}
use sovelma_os.Terminal.Commands.{DhcpAction, status, renew, release}

-- What a command comes to.
pub data Report : Type 0 where
  shown done : Report
  address : Ipv4Address → Report
  not_ready not_an_address : Report
  query_started : Report
  query_failed : NetError → Report
  connecting : Report
  connection_failed : NetError → Report

module _ (net : Smoltcp) where
  pub record Machine : Type 0 where
    pub stack : NetworkStack net
    pub client : DhcpClient
    pub resolver : DnsResolver

  unfoldable pub cmd_dhcp : DhcpAction → Machine → Report × Machine
  cmd_dhcp status m = (shown, m)
  cmd_dhcp renew m =
      let (client', stack') = Dhcp.renew net m.client m.stack in
      (done, record m { client = client'; stack = stack' })
  cmd_dhcp release m = (shown, m)

  -- The resolver, made ready if it can be.
  unfoldable pub made_ready : Machine → Machine
  made_ready m =
      if Dns.is_ready m.resolver
      then m
      else (let (resolver', stack') = Dns.init net m.resolver m.stack in
          record m { resolver = resolver'; stack = stack' })

  unfoldable pub cmd_dns : (hostname : List ℕ) → Machine → Report × Machine
  unfolding made_ready
  cmd_dns hostname m = elim (parse_ipv4 hostname) [
    | some ip ↦ (address ip, m)
    | none ↦
        let m₁ = made_ready m in
        if Dns.is_ready m₁.resolver
        then (let (result, resolver', stack') = Dns.resolve net hostname m₁.resolver m₁.stack in
            (
              elim result [ ok handle ↦ query_started | err e ↦ query_failed e ],
              record m₁ { resolver = resolver'; stack = stack' },
            ))
        else (not_ready, m₁)
  ]

  unfoldable pub cmd_connect : (host : List ℕ) → (port : ℕ) → Machine → Report × Machine
  unfolding tcp_socket tcp_connect
  cmd_connect host port m = elim (parse_ipv4 host) [
    | none ↦ (not_an_address, m)
    | some ip ↦
        let (handle, stack₁) = tcp_socket net m.stack in
        let local_port = 49152 + ip.d % 1000 in
        let (result, stack₂) = tcp_connect net handle ip port local_port stack₁ in
        (
          elim result [ ok u ↦ connecting | err e ↦ connection_failed e ],
          record m { stack = stack₂ },
        )
  ]
