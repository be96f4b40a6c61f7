-- ===== src/Net/Dns/Examples.antt =====
-- A resolver at work over the sample network: two names are resolved, one is answered.
use sovelma_os.Prelude.{◌≡◌, ◌≢◌, refl, [], ◌∷◌, none, some, arith}
use sovelma_os.Net.{ok}
use sovelma_os.Net.Smoltcp.{Ipv4Address, answered, pending}
use sovelma_os.Net.Smoltcp.Sample.{network, network_slots, SampleSockets}
use sovelma_os.Net.Stack.{NetworkStack, dhcp}
use sovelma_os.Net.Dns.{DnsResolver, new, init, resolve, poll, get_result, cancel, remove_id}
use sovelma_os.Net.Dns.Polling.{finished, unfinished, poll_lem, Tracked, add_finished}
use sovelma_os.Net.Dns.Tracking.{start, inits, resolves, cancels, Reach-poll, get_result-once}

abbrev server : Ipv4Address
server = record { a = 10; b = 0; c = 2; d = 3 }

abbrev online : NetworkStack network
online = record {
  mac_address = record { mac0 = 2; mac1 = 0; mac2 = 0; mac3 = 0; mac4 = 0; mac5 = 1 };
  ip_addrs = [];
  routes = [];
  sockets = record { queries = []; events = [] };
  config = dhcp;
  dns_servers = server ∷ [];
}

-- The names "a" and "b" in two slots, of which the second is answered.
abbrev half_answered : SampleSockets
half_answered = record { queries = some pending ∷ some (answered (server ∷ [])) ∷ []; events = [] }

abbrev waiting : DnsResolver
waiting = record {
  socket = some 0;
  pending =
      record { id = 1; query = 0; hostname = 97 ∷ [] }
      ∷ record { id = 2; query = 1; hostname = 98 ∷ [] }
      ∷ [];
  next_id = 3;
}

abbrev at_work : NetworkStack network
at_work = record online { sockets = half_answered }

resolved :
    (resolve network (97 ∷ []) (init network new online).0 (init network new online).1).1.pending
    ≡ record { id = 1; query = 0; hostname = 97 ∷ [] } ∷ []
unfolding resolve init new
resolved = refl

polled :
    (finished (network_slots.state half_answered 0) waiting.pending
      ≡ ok (record { hostname = 98 ∷ []; addresses = server ∷ [] }) ∷ [])
    × (unfinished (network_slots.state half_answered 0) waiting.pending
        ≡ record { id = 1; query = 0; hostname = 97 ∷ [] } ∷ [])
unfolding finished unfinished
polled = (refl, refl)

waiting-Tracked : Tracked (network_slots.state half_answered 0) waiting.pending
waiting-Tracked =
    ((λ z. absurd (ground arith)), (ground arith, tt), ((λ z. absurd (ground arith)), tt, tt))

poll_lem_example :
    (s' : SampleSockets) × (poll network waiting at_work
      ≡ some (
        finished (network_slots.state half_answered 0) waiting.pending,
        record waiting {
          pending = unfinished (network_slots.state half_answered 0) waiting.pending;
        },
        record at_work { sockets = s' },
      ))
    × Tracked
        (network_slots.state s' 0)
        (unfinished (network_slots.state half_answered 0) waiting.pending)
poll_lem_example = poll_lem network_slots waiting 0 at_work refl waiting-Tracked

-- Initialised, then a name resolved, and its query cancelled.
abbrev ready : DnsResolver × NetworkStack network
ready = init network new online

abbrev cancelled : DnsResolver × NetworkStack network
cancelled =
    let (answer, r, stack) = resolve network (97 ∷ []) ready.0 ready.1 in
    (cancel (record { handle = 0; id = 7 }) r, stack)

Reach-poll_example : poll network cancelled.0 cancelled.1 ≢ none
Reach-poll_example =
    Reach-poll network_slots
      (cancels (record { handle = 0; id = 7 }) (resolves (97 ∷ []) (inits (start online))))

get_result-once_example :
    (s' : SampleSockets) × (get_result network (record { handle = 1; id = 2 }) waiting at_work
      ≡ some (
        some (ok (record { hostname = 98 ∷ []; addresses = server ∷ [] })),
        record waiting { pending = record { id = 1; query = 0; hostname = 97 ∷ [] } ∷ [] },
        record at_work { sockets = s' },
      ))
    × (get_result network
          (record { handle = 1; id = 2 })
          (record waiting { pending = record { id = 1; query = 0; hostname = 97 ∷ [] } ∷ [] })
          (record at_work { sockets = s' })
        ≡ none)
unfolding remove_id add_finished
get_result-once_example =
    get_result-once network_slots (record { handle = 1; id = 2 }) waiting at_work 0
      (record { id = 2; query = 1; hostname = 98 ∷ [] })
      (record { id = 1; query = 0; hostname = 97 ∷ [] } ∷ []) (answered (server ∷ []))
      (ok (record { hostname = 98 ∷ []; addresses = server ∷ [] })) refl refl refl refl
