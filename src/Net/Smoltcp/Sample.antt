-- ===== src/Net/Smoltcp/Sample.antt =====
-- A small network that meets the interface: the slots of one DNS socket, four at most, and a list
-- of DHCP events to come.
use sovelma_os.Prelude.{
  ℕ, zero, suc, ◌-◌, ◌≡◌, ◌≢◌, refl, ap, subst, List, [], ◌∷◌, ◌++◌, Option, none, some, length,
  set, ltb, if◌then◌else◌, arith, Bool-cases, inl, inr,
}
use sovelma_os.Net.Smoltcp.{
  Smoltcp, Ipv4Address, QueryResult, answered, pending, failed, StartQueryError, no_free_slot,
  QueryStart, started, refused, DhcpSocketEvent,
}
use sovelma_os.Net.Smoltcp.Slots.{Slots}

pub record SampleSockets : Type 0 where
  pub queries : List (Option QueryResult)
  pub events : List DhcpSocketEvent

abbrev pub slot_at : List (Option QueryResult) → ℕ → Option QueryResult
slot_at [] q = none
slot_at (slot ∷ slots) zero = slot
slot_at (slot ∷ slots) (suc q) = slot_at slots q

abbrev pub read_slot : SampleSockets → ℕ → Option QueryResult → Option (QueryResult × SampleSockets)
read_slot s q none = none
read_slot s q (some pending) = some (pending, s)
read_slot s q (some (answered addrs)) =
    some (answered addrs, record s { queries = set s.queries q none })
read_slot s q (some failed) = some (failed, record s { queries = set s.queries q none })

abbrev pub result_at : SampleSockets → ℕ → Option (QueryResult × SampleSockets)
result_at s q = read_slot s q (slot_at s.queries q)

abbrev pub start_at : SampleSockets → QueryStart × SampleSockets
start_at s =
    if ltb (length s.queries) 4
    then (started (length s.queries), record s { queries = s.queries ++ some pending ∷ [] })
    else (refused no_free_slot, s)

abbrev pub next_event : SampleSockets → Option DhcpSocketEvent × SampleSockets
next_event s = elim s.events [
  | [] ↦ (none, s)
  | event ∷ events ↦ (some event, record s { events = events })
]

abbrev pub network : Smoltcp
network = record {
  Sockets = SampleSockets;
  Routes = List Ipv4Address;
  add_dns_socket = λ servers s. (0, s);
  add_dhcp_socket = λ s. (1, s);
  add_tcp_socket = λ rx tx s. (2, s);
  start_query = λ s k name. start_at s;
  get_query_result = λ s k q. result_at s q;
  poll_dhcp = λ s k. next_event s;
  reset_dhcp = λ s k. s;
  connect_tcp = λ s k remote port local_port. some s;
  push_addr = λ addrs ip. if ltb (length addrs) 2 then some (addrs ++ ip ∷ []) else none;
  add_default_ipv4_route = λ gw routes. some (gw ∷ []);
  elapsed = λ now start. now - start;
}

pub slot_at-set_self : (qs : List (Option QueryResult)) (q : ℕ) → slot_at (set qs q none) q ≡ none
slot_at-set_self [] q = refl
slot_at-set_self (x ∷ qs) zero = refl
slot_at-set_self (x ∷ qs) (suc q) = slot_at-set_self qs q

pub slot_at-set_ne :
    (qs : List (Option QueryResult)) (q i : ℕ) → i ≢ q → slot_at (set qs q none) i ≡ slot_at qs i
slot_at-set_ne [] q i n = refl
slot_at-set_ne (x ∷ qs) zero zero n = absurd (n refl)
slot_at-set_ne (x ∷ qs) zero (suc i) n = refl
slot_at-set_ne (x ∷ qs) (suc q) zero n = refl
slot_at-set_ne (x ∷ qs) (suc q) (suc i) n = slot_at-set_ne qs q i (λ z. n (ap suc z))

slot_at-length : (qs : List (Option QueryResult)) → slot_at qs (length qs) ≡ none
slot_at-length [] = refl
slot_at-length (x ∷ qs) = slot_at-length qs

slot_at-append_last :
    (qs : List (Option QueryResult)) (r : Option QueryResult)
    → slot_at (qs ++ r ∷ []) (length qs) ≡ r
slot_at-append_last [] r = refl
slot_at-append_last (x ∷ qs) r = slot_at-append_last qs r

slot_at-append_ne :
    (qs : List (Option QueryResult)) (r : Option QueryResult) (i : ℕ)
    → i ≢ length qs
    → slot_at (qs ++ r ∷ []) i ≡ slot_at qs i
slot_at-append_ne [] r zero n = absurd (n refl)
slot_at-append_ne [] r (suc i) n = refl
slot_at-append_ne (x ∷ qs) r zero n = refl
slot_at-append_ne (x ∷ qs) r (suc i) n = slot_at-append_ne qs r i (λ z. n (ap suc z))

pub result_over :
    (s : SampleSockets) (q : ℕ) (r : QueryResult)
    → slot_at s.queries q ≡ some r
    → r ≢ pending
    → result_at s q ≡ some (r, record s { queries = set s.queries q none })
result_over s q pending h n = absurd (n refl)
result_over s q (answered addrs) h n = ground arith
result_over s q failed h n = ground arith

pub start_takes :
    (s s' : SampleSockets) (q : ℕ)
    → start_at s ≡ (started q, s')
    → (slot_at s.queries q ≡ none)
      × (slot_at s'.queries q ≡ some pending)
      × ((i : ℕ) → i ≢ q → slot_at s'.queries i ≡ slot_at s.queries i)
start_takes s s' q h = elim (Bool-cases (ltb (length s.queries) 4)) [
  | inr full ↦ absurd (ground arith)
  | inl room ↦
      let at : length s.queries ≡ q = ground arith in
      let next : s.queries ++ some pending ∷ [] ≡ s'.queries = ground arith in
      subst
        (λ i.
          (slot_at s.queries i ≡ none)
          × (slot_at s'.queries i ≡ some pending)
          × ((j : ℕ) → j ≢ i → slot_at s'.queries j ≡ slot_at s.queries j))
        at
        (subst
          (λ l.
            (slot_at s.queries (length s.queries) ≡ none)
            × (slot_at l (length s.queries) ≡ some pending)
            × ((j : ℕ) → j ≢ length s.queries → slot_at l j ≡ slot_at s.queries j))
          next
          (
            slot_at-length s.queries,
            slot_at-append_last s.queries (some pending),
            λ j n. slot_at-append_ne s.queries (some pending) j n,
          ))
]

pub start_refused :
    (s s' : SampleSockets) (o : StartQueryError)
    → start_at s ≡ (refused o, s')
    → s'.queries ≡ s.queries
start_refused s s' o h = elim (Bool-cases (ltb (length s.queries) 4)) [
  | inl room ↦ absurd (ground arith)
  | inr full ↦ ground arith
]

abbrev pub network_slots : Slots network
network_slots = record {
  state = λ s k q. slot_at s.queries q;
  result_free = λ s k q h. ap (read_slot s q) h;
  result_pending = λ s k q h. (s, ap (read_slot s q) h, λ j i. refl);
  result_finished = λ s k q r h n. (
    record s { queries = set s.queries q none },
    result_over s q r h n,
    slot_at-set_self s.queries q,
    λ i m. slot_at-set_ne s.queries q i m,
  );
  start_takes = λ s s' k q name h. start_takes s s' q h;
  start_refused = λ s s' k name o h i. ap (λ l. slot_at l i) (start_refused s s' o h);
}
