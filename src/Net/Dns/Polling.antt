-- ===== src/Net/Dns/Polling.antt =====
-- `DnsResolver::poll` against a description that reads the slots once, before the poll.
use sovelma_os.Prelude.{
  ℕ, ◌≡◌, ◌≢◌, refl, sym, subst, List, [], ◌∷◌, Option, none, some, All, arith, Option-cases, inl,
  inr, ◌∙◌, ap₂,
}
use sovelma_os.Net.{NetResult, ok, err, dns_error}
use sovelma_os.Net.Smoltcp.{Smoltcp, QueryResult, answered, pending, failed}
use sovelma_os.Net.Smoltcp.Slots.{Slots}
use sovelma_os.Net.Stack.{NetworkStack}
use sovelma_os.Net.Dns.{DnsResult, PendingQuery, DnsResolver, poll_pending, poll}

-- A view of the slots of one socket.
abbrev pub View : Type 0
View = ℕ → Option QueryResult

-- What an entry whose query is over gives, before the later ones.
unfoldable pub add_finished :
    PendingQuery → Option QueryResult → List (NetResult DnsResult) → List (NetResult DnsResult)
add_finished e (some (answered addrs)) rest =
    ok (record { hostname = e.hostname; addresses = addrs }) ∷ rest
add_finished e (some failed) rest = err dns_error ∷ rest
add_finished e _ rest = rest

unfoldable pub finished : View → List PendingQuery → List (NetResult DnsResult)
unfolding add_finished
finished v [] = []
finished v (e ∷ es) = add_finished e (v e.query) (finished v es)

-- An entry whose query is not over stays before the later ones.
unfoldable pub add_unfinished :
    PendingQuery → Option QueryResult → List PendingQuery → List PendingQuery
add_unfinished e (some pending) rest = e ∷ rest
add_unfinished e _ rest = rest

unfoldable pub unfinished : View → List PendingQuery → List PendingQuery
unfolding add_unfinished
unfinished v [] = []
unfinished v (e ∷ es) = add_unfinished e (v e.query) (unfinished v es)

abbrev pub Apart : ℕ → List PendingQuery → Type 0
Apart q = All (λ e. e.query ≢ q)

-- Every entry's slot is taken, and no two entries share one.
abbrev pub Tracked : View → List PendingQuery → Type 0
Tracked v [] = Unit
Tracked v (e ∷ es) = (v e.query ≢ none) × Apart e.query es × Tracked v es

-- The views agree on the entries.
abbrev pub Same : View → View → List PendingQuery → Type 0
Same v v' = All (λ e. v' e.query ≡ v e.query)

pub agree_all : (v v' : View) (es : List PendingQuery) → ((i : ℕ) → v' i ≡ v i) → Same v v' es
agree_all v v' [] h = tt
agree_all v v' (e ∷ es) h = (h e.query, agree_all v v' es h)

pub agree_elsewhere :
    (v v' : View) (q : ℕ) (es : List PendingQuery)
    → ((i : ℕ) → i ≢ q → v' i ≡ v i)
    → Apart q es
    → Same v v' es
agree_elsewhere v v' q [] h a = tt
agree_elsewhere v v' q (e ∷ es) h (n, a) = (h e.query n, agree_elsewhere v v' q es h a)

finished_congr :
    (v v' : View) (es : List PendingQuery) → Same v v' es → finished v' es ≡ finished v es
unfolding finished
finished_congr v v' [] s = refl
finished_congr v v' (e ∷ es) (p, s) = ap₂ (add_finished e) p (finished_congr v v' es s)

unfinished_congr :
    (v v' : View) (es : List PendingQuery) → Same v v' es → unfinished v' es ≡ unfinished v es
unfolding unfinished
unfinished_congr v v' [] s = refl
unfinished_congr v v' (e ∷ es) (p, s) = ap₂ (add_unfinished e) p (unfinished_congr v v' es s)

pub carry_over :
    (v v' : View) (es : List PendingQuery) → Same v v' es → Tracked v es → Tracked v' es
carry_over v v' [] s t = tt
carry_over v v' (e ∷ es) (p, s) (n, a, t) = (rw p n, a, carry_over v v' es s t)

pub Apart-unfinished :
    (v : View) (q : ℕ) (es : List PendingQuery) → Apart q es → Apart q (unfinished v es)
unfolding unfinished
Apart-unfinished v q [] a = tt
Apart-unfinished v q (e ∷ es) (n, a) =
    let rest = Apart-unfinished v q es a in
    elim (Option-cases (v e.query)) [
      | inl p ↦ rw p rest
      | inr (answered addrs, p) ↦ rw p rest
      | inr (failed, p) ↦ rw p rest
      | inr (pending, p) ↦ rw p (n, rest)
    ]

module _ {net : Smoltcp} (slots : Slots net) where
  open slots use {state}

  -- What the loop of `poll` does, by the slots `v` that it starts from.
  abbrev Polled :
      (socket : ℕ)
      → List PendingQuery
      → net.Sockets
      → Option (List (NetResult DnsResult) × List PendingQuery × net.Sockets)
      → Type 0
  Polled k es s r =
      (s' : net.Sockets) × (r ≡ some (finished (state s k) es, unfinished (state s k) es, s'))
      × Tracked (state s' k) (unfinished (state s k) es)
      × ((i : ℕ) → Apart i es → state s' k i ≡ state s k i)

  -- One entry, whose query is over, and then the others.
  step_over :
      (k : ℕ) (e : PendingQuery) (es : List PendingQuery) (s : net.Sockets) (r : QueryResult)
      → r ≢ pending
      → state s k e.query ≡ some r
      → Apart e.query es
      → ((s₁ : net.Sockets)
          → Same (state s k) (state s₁ k) es
          → Polled k es s₁ (poll_pending net k es s₁))
      → Polled k (e ∷ es) s (poll_pending net k (e ∷ es) s)
  unfolding poll_pending finished unfinished add_finished add_unfinished
  step_over k e es s pending n p a next = absurd (n refl)
  step_over k e es s (answered addrs) n p a next =
      let (s₁, g, _, same) = slots.result_finished s k e.query (answered addrs) p n in
      let still = agree_elsewhere (state s k) (state s₁ k) e.query es same a in
      let (s₂, q, t₂, u) = next s₁ still in
      let kept = unfinished_congr (state s k) (state s₁ k) es still in
      let done = finished_congr (state s k) (state s₁ k) es still in
      (
        s₂,
        rw (p, ← kept, ← done) (ground (arith, g, q)),
        rw p (subst (Tracked (state s₂ k)) kept t₂),
        λ i b. u i b.1 ∙ same i (λ z. b.0 (sym z)),
      )
  step_over k e es s failed n p a next =
      let (s₁, g, _, same) = slots.result_finished s k e.query failed p n in
      let still = agree_elsewhere (state s k) (state s₁ k) e.query es same a in
      let (s₂, q, t₂, u) = next s₁ still in
      let kept = unfinished_congr (state s k) (state s₁ k) es still in
      let done = finished_congr (state s k) (state s₁ k) es still in
      (
        s₂,
        rw (p, ← kept, ← done) (ground (arith, g, q)),
        rw p (subst (Tracked (state s₂ k)) kept t₂),
        λ i b. u i b.1 ∙ same i (λ z. b.0 (sym z)),
      )

  poll_pending-Polled :
      (k : ℕ) (es : List PendingQuery) (s : net.Sockets)
      → Tracked (state s k) es
      → Polled k es s (poll_pending net k es s)
  unfolding poll_pending finished unfinished add_finished add_unfinished
  poll_pending-Polled k [] s t = (s, refl, tt, λ i a. refl)
  poll_pending-Polled k (e ∷ es) s (n, a, t) =
      let next = λ (s₁ : net.Sockets) (same : Same (state s k) (state s₁ k) es).
        poll_pending-Polled k es s₁ (carry_over (state s k) (state s₁ k) es same t) in
      elim (Option-cases (state s k e.query)) [
        | inl free ↦ absurd (n free)
        | inr (answered addrs, p) ↦ step_over k e es s (answered addrs) (ground arith) p a next
        | inr (failed, p) ↦ step_over k e es s failed (ground arith) p a next
        | inr (pending, p) ↦
            let (s₁, g, same) = slots.result_pending s k e.query p in
            let still = agree_all (state s k) (state s₁ k) es (λ i. same k i) in
            let (s₂, r, t₂, u) = next s₁ still in
            let kept = unfinished_congr (state s k) (state s₁ k) es still in
            let done = finished_congr (state s k) (state s₁ k) es still in
            (
              s₂,
              rw (p, ← kept, ← done) (ground (arith, g, r)),
              rw p (
                (λ z. n (sym (same k e.query) ∙ (sym (u e.query a) ∙ z))),
                Apart-unfinished (state s k) e.query es a,
                subst (Tracked (state s₂ k)) kept t₂,
              ),
              λ i b. u i b.1 ∙ same k i,
            )
      ]

  -- A poll of a resolver with a socket, where every pending query has a slot of its own, never
  -- panics; it returns the results of the queries that are over, in the order of the entries,
  -- keeps exactly the others, in order, and they still have slots of their own.
  pub poll_lem :
      (r : DnsResolver) (k : ℕ) (stack : NetworkStack net)
      → r.socket ≡ some k
      → Tracked (state stack.sockets k) r.pending
      → (s' : net.Sockets) × (poll net r stack
          ≡ some (
            finished (state stack.sockets k) r.pending,
            record r { pending = unfinished (state stack.sockets k) r.pending },
            record stack { sockets = s' },
          ))
        × Tracked (state s' k) (unfinished (state stack.sockets k) r.pending)
  unfolding poll
  poll_lem r k stack h t =
      let (s', q, t', u) = poll_pending-Polled k r.pending stack.sockets t in
      (s', ground (arith, h, q), t')
