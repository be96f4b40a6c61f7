-- ===== src/Net/Smoltcp/Slots.antt =====
-- What `smoltcp` documents of the query slots of a DNS socket: a query that starts takes a free
-- slot, the result of a finished query frees its slot, and no query disturbs another.
use sovelma_os.Prelude.{ℕ, ◌≡◌, ◌≢◌, List, Option, none, some}
use sovelma_os.Net.Smoltcp.{Smoltcp, QueryResult, pending, StartQueryError, started, refused}

-- A slot of the socket, by its handle: free, or with the state of its query.
pub record Slots (net : Smoltcp) : Type 0 where
  pub state : net.Sockets → (socket query : ℕ) → Option QueryResult
  pub result_free :
      (s : net.Sockets) (k q : ℕ) → state s k q ≡ none → net.get_query_result s k q ≡ none
  pub result_pending :
      (s : net.Sockets) (k q : ℕ)
      → state s k q ≡ some pending
      → (s' : net.Sockets) × (net.get_query_result s k q ≡ some (pending, s'))
        × ((j i : ℕ) → state s' j i ≡ state s j i)
  pub result_finished :
      (s : net.Sockets) (k q : ℕ) (r : QueryResult)
      → state s k q ≡ some r
      → r ≢ pending
      → (s' : net.Sockets) × (net.get_query_result s k q ≡ some (r, s'))
        × (state s' k q ≡ none)
        × ((i : ℕ) → i ≢ q → state s' k i ≡ state s k i)
  pub start_takes :
      (s s' : net.Sockets) (k q : ℕ) (name : List ℕ)
      → net.start_query s k name ≡ (started q, s')
      → (state s k q ≡ none)
        × (state s' k q ≡ some pending)
        × ((i : ℕ) → i ≢ q → state s' k i ≡ state s k i)
  pub start_refused :
      (s s' : net.Sockets) (k : ℕ) (name : List ℕ) (o : StartQueryError)
      → net.start_query s k name ≡ (refused o, s')
      → (i : ℕ) → state s' k i ≡ state s k i
