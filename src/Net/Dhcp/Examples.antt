-- ===== src/Net/Dhcp/Examples.antt =====
-- A lease, and its renewal eleven seconds after the start, over the sample network.
use sovelma_os.Prelude.{◌≡◌, refl, [], ◌∷◌, none, some, arith}
use sovelma_os.Net.Smoltcp.{Ipv4Address, LeaseConfig, configured}
use sovelma_os.Net.Smoltcp.Sample.{network}
use sovelma_os.Net.Stack.{NetworkStack, dhcp}
use sovelma_os.Net.Dhcp.{
  DhcpClient, bound, link_local, link_local_fallback, link_local_address, new, start, poll, renew,
}
use sovelma_os.Net.Dhcp.Lease.{IsConsistent, begins, starts, polls, Reach-IsConsistent, poll-renew}

abbrev address : Ipv4Address
address = record { a = 10; b = 0; c = 2; d = 15 }

abbrev lease : LeaseConfig
lease = record {
  address = record { address = address; prefix_len = 24 };
  router = none;
  dns_servers = address ∷ [];
}

abbrev offline : NetworkStack network
offline = record {
  mac_address = record { mac0 = 2; mac1 = 0; mac2 = 0; mac3 = 0; mac4 = 7; mac5 = 9 };
  ip_addrs = [];
  routes = [];
  sockets = record { queries = []; events = configured lease ∷ [] };
  config = dhcp;
  dns_servers = [];
}

abbrev begun : DhcpClient × NetworkStack network
begun = start network 1_000 new offline

abbrev leased : DhcpClient × NetworkStack network
leased = let (event, client, stack) = poll network 2_000 begun.0 begun.1 in (client, stack)

leased_state :
    (leased.0.state ≡ bound)
    × (leased.1.ip_addrs ≡ record { address = address; prefix_len = 24 } ∷ [])
unfolding start poll new
leased_state = (refl, refl)

Reach-IsConsistent_example : IsConsistent leased.0 leased.1
Reach-IsConsistent_example =
    Reach-IsConsistent (λ ip. refl) (polls 2_000 (starts 1_000 (begins offline)))

-- Eleven seconds after the start.
poll-renew_example :
    let (client', stack') = renew network leased.0 leased.1 in
    let (event, client'', stack'') = poll network 11_001_000 client' stack' in
    (event ≡ some (link_local_fallback (link_local_address network leased.1)))
    × (client''.state ≡ link_local)
    × (client''.config ≡ leased.0.config)
unfolding start poll new
poll-renew_example = poll-renew 11_001_000 1 1_000 leased.0 leased.1 refl refl (omega arith)
