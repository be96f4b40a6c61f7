-- ===== src/Net/Dns.antt =====
-- kernel/src/net/dns.rs: `DnsResolver`. `none` is a panic of `smoltcp`, for a query whose slot is
-- free.
pub mod Polling
pub mod Tracking
mod Examples
use sovelma_os.Prelude.{
  ℕ, ◌+◌, ◌%◌, ◌^◌, Bool, List, [], ◌∷◌, ◌++◌, Option, none, some, is_some, is_empty, length, ◌==◌,
  if◌then◌else◌,
}
use sovelma_os.Net.{NetError, NetResult, ok, err, device_not_ready, buffer_full, dns_error}
use sovelma_os.Net.Smoltcp.{
  Smoltcp, Ipv4Address, QueryResult, answered, pending, failed, StartQueryError, no_free_slot,
  invalid_name, name_too_long, started, refused,
}
use sovelma_os.Net.Stack.{NetworkStack, start_dns_query}

pub record DnsQueryHandle : Type 0 where
  pub handle : ℕ
  pub id : ℕ

pub record DnsResult : Type 0 where
  pub hostname : List ℕ
  pub addresses : List Ipv4Address

-- `(u16, dns::QueryHandle, String)`.
pub record PendingQuery : Type 0 where
  pub id : ℕ
  pub query : ℕ
  pub hostname : List ℕ

pub record DnsResolver : Type 0 where
  pub socket : Option ℕ
  pub pending : List PendingQuery
  pub next_id : ℕ

unfoldable pub new : DnsResolver
new = record { socket = none; pending = []; next_id = 1 }

unfoldable pub is_ready : DnsResolver → Bool
is_ready r = is_some r.socket

unfoldable pub pending_count : DnsResolver → ℕ
pending_count r = length r.pending

-- `position` of an identifier and `remove` there: the entry, and the others.
unfoldable pub remove_id : ℕ → List PendingQuery → Option (PendingQuery × List PendingQuery)
remove_id id [] = none
remove_id id (e ∷ es) =
    let rest = remove_id id es in
    if e.id == id
    then some (e, es)
    else elim rest [ none ↦ none | some (found, others) ↦ some (found, e ∷ others) ]

unfoldable pub cancel : DnsQueryHandle → DnsResolver → DnsResolver
unfolding remove_id
cancel query r = elim (remove_id query.id r.pending) [
  | none ↦ r
  | some (e, others) ↦ record r { pending = others }
]

unfoldable pub start_error : StartQueryError → NetError
start_error no_free_slot = buffer_full
start_error invalid_name = dns_error
start_error name_too_long = dns_error

module _ (net : Smoltcp) where
  unfoldable pub init : DnsResolver → NetworkStack net → DnsResolver × NetworkStack net
  init r stack =
      if is_some r.socket
      then (r, stack)
      else if is_empty stack.dns_servers
      then (r, stack)
      else (let (handle, sockets') = net.add_dns_socket stack.dns_servers stack.sockets in
          (record r { socket = some handle }, record stack { sockets = sockets' }))

  unfoldable pub resolve :
      (hostname : List ℕ)
      → DnsResolver
      → NetworkStack net
      → NetResult DnsQueryHandle × DnsResolver × NetworkStack net
  unfolding start_dns_query start_error
  resolve hostname r stack = elim r.socket [
    | none ↦ (err device_not_ready, r, stack)
    | some socket ↦
        let (start, stack') = start_dns_query net socket hostname stack in
        elim start [
          | refused e ↦ (err (start_error e), r, stack')
          | started query ↦ (
            ok (record { handle = query; id = r.next_id }),
            record r {
              next_id = (r.next_id + 1) % 2 ^ 16;
              pending =
                  r.pending ++ record { id = r.next_id; query = query; hostname = hostname } ∷ [];
            },
            stack',
          )
        ]
  ]

  -- The loop of `poll` from its index on: the results, the entries that stay, and the sockets.
  unfoldable pub poll_pending :
      (socket : ℕ)
      → List PendingQuery
      → net.Sockets
      → Option (List (NetResult DnsResult) × List PendingQuery × net.Sockets)
  poll_pending socket [] s = some ([], [], s)
  poll_pending socket (e ∷ es) s = elim (net.get_query_result s socket e.query) [
    | none ↦ none
    | some (result, s') ↦ elim (poll_pending socket es s') [
      | none ↦ none
      | some (results, kept, s'') ↦ elim result [
        | answered addrs ↦
            some (ok (record { hostname = e.hostname; addresses = addrs }) ∷ results, kept, s'')
        | pending ↦ some (results, e ∷ kept, s'')
        | failed ↦ some (err dns_error ∷ results, kept, s'')
      ]
    ]
  ]

  unfoldable pub poll :
      DnsResolver
      → NetworkStack net
      → Option (List (NetResult DnsResult) × DnsResolver × NetworkStack net)
  unfolding poll_pending
  poll r stack = elim r.socket [
    | none ↦ some ([], r, stack)
    | some socket ↦ elim (poll_pending socket r.pending stack.sockets) [
      | none ↦ none
      | some (results, kept, s') ↦
          some (results, record r { pending = kept }, record stack { sockets = s' })
    ]
  ]

  -- What `get_result` answers once its query has finished: nothing, if the query is not tracked.
  unfoldable pub take_result :
      (id : ℕ)
      → (result : List ℕ → NetResult DnsResult) → DnsResolver
      → Option (NetResult DnsResult) × DnsResolver
  unfolding remove_id
  take_result id result r = elim (remove_id id r.pending) [
    | none ↦ (none, r)
    | some (e, others) ↦ (some (result e.hostname), record r { pending = others })
  ]

  unfoldable pub get_result :
      DnsQueryHandle
      → DnsResolver
      → NetworkStack net
      → Option (Option (NetResult DnsResult) × DnsResolver × NetworkStack net)
  unfolding take_result
  get_result query r stack = elim r.socket [
    | none ↦ some (none, r, stack)
    | some socket ↦ elim (net.get_query_result stack.sockets socket query.handle) [
      | none ↦ none
      | some (result, s') ↦
          let stack' = record stack { sockets = s' } in
          elim result [
            | answered addrs ↦
                let (answer, r') =
                  take_result query.id (λ name. ok (record { hostname = name; addresses = addrs }))
                    r in
                some (answer, r', stack')
            | pending ↦ some (none, r, stack')
            | failed ↦
                let (answer, r') = take_result query.id (λ name. err dns_error) r in
                some (answer, r', stack')
          ]
    ]
  ]
