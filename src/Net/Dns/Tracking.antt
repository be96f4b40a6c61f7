-- ===== src/Net/Dns/Tracking.antt =====
-- kernel/src/net/dns.rs as the kernel uses it: names are resolved, polled and cancelled in any
-- order while the network answers.
use sovelma_os.Prelude.{
  ℕ, ◌+◌, ◌%◌, ◌^◌, ◌≡◌, ◌≢◌, refl, sym, subst, List, [], ◌∷◌, ◌++◌, none, some, arith, Bool-cases,
  Option-cases, inl, inr, is_empty, ◌==◌,
}
use sovelma_os.Net.{NetResult}
use sovelma_os.Net.Smoltcp.{
  Smoltcp, QueryResult, answered, pending, failed, QueryStart, started, refused,
}
use sovelma_os.Net.Smoltcp.Slots.{Slots}
use sovelma_os.Net.Stack.{NetworkStack, start_dns_query}
use sovelma_os.Net.Dns.{
  DnsResult, DnsQueryHandle, PendingQuery, DnsResolver, new, init, resolve, poll, cancel, remove_id,
  get_result, take_result,
}
use sovelma_os.Net.Dns.Polling.{
  View, Tracked, Apart, agree_elsewhere, agree_all, carry_over, poll_lem, add_finished,
}

Tracked-remove_id :
    (v : View) (id : ℕ) (es : List PendingQuery) (e : PendingQuery) (others : List PendingQuery)
    → remove_id id es ≡ some (e, others)
    → Tracked v es
    → Tracked v others × ((q : ℕ) → Apart q es → Apart q others)
unfolding remove_id
Tracked-remove_id v id [] e others h t = absurd (ground arith)
Tracked-remove_id v id (x ∷ es) e others h (n, a, t) = elim (Bool-cases (x.id == id)) [
  | inl same ↦
      let p : es ≡ others = ground arith in
      subst (λ l. Tracked v l × ((q : ℕ) → Apart q (x ∷ es) → Apart q l)) p (t, λ q b. b.1)
  | inr other ↦ elim (Option-cases (remove_id id es)) [
    | inl missing ↦ absurd (ground arith)
    | inr ((f, l), found) ↦
        let (t', keep) = Tracked-remove_id v id es f l found t in
        let p : x ∷ l ≡ others = ground arith in
        subst (λ l'. Tracked v l' × ((q : ℕ) → Apart q (x ∷ es) → Apart q l')) p
          ((n, keep x.query a, t'), λ q b. (b.0, keep q b.1))
  ]
]

-- A free slot is no entry's.
Apart-free : (v : View) (q : ℕ) (es : List PendingQuery) → v q ≡ none → Tracked v es → Apart q es
Apart-free v q [] free t = tt
Apart-free v q (e ∷ es) free (n, a, t) =
    ((λ p. n (subst (λ i. v i ≡ none) (sym p) free)), Apart-free v q es free t)

Apart-snoc :
    (q : ℕ) (es : List PendingQuery) (e : PendingQuery)
    → Apart q es
    → e.query ≢ q
    → Apart q (es ++ e ∷ [])
Apart-snoc q [] e a n = (n, tt)
Apart-snoc q (x ∷ es) e (m, a) n = (m, Apart-snoc q es e a n)

Tracked-snoc :
    (v : View) (es : List PendingQuery) (e : PendingQuery)
    → Tracked v es
    → v e.query ≢ none
    → Apart e.query es
    → Tracked v (es ++ e ∷ [])
Tracked-snoc v [] e t n a = (n, tt, tt)
Tracked-snoc v (x ∷ es) e (m, b, t) n (c, a) =
    (m, Apart-snoc x.query es e b (λ p. c (sym p)), Tracked-snoc v es e t n a)

-- Slots that stay taken keep the entries tracked.
carry_held :
    (v v' : View) (es : List PendingQuery)
    → ((q : ℕ) → v q ≢ none → v' q ≢ none)
    → Tracked v es
    → Tracked v' es
carry_held v v' [] h t = tt
carry_held v v' (e ∷ es) h (n, a, t) = (h e.query n, a, carry_held v v' es h t)

module _ {net : Smoltcp} (slots : Slots net) where
  open slots use {state}

  -- The resolvers and stacks that the calls of the kernel lead to.
  pub data Reach : DnsResolver → NetworkStack net → Type 0 where
    start : (stack : NetworkStack net) → Reach new stack
    inits :
        {r : DnsResolver} {stack : NetworkStack net}
        → Reach r stack
        → Reach (init net r stack).0 (init net r stack).1
    resolves :
        {r : DnsResolver} {stack : NetworkStack net} (hostname : List ℕ)
        → Reach r stack
        → Reach (resolve net hostname r stack).1 (resolve net hostname r stack).2
    polls :
        {r r' : DnsResolver} {stack stack' : NetworkStack net}
        {results : List (NetResult DnsResult)}
        → Reach r stack
        → poll net r stack ≡ some (results, r', stack')
        → Reach r' stack'
    cancels :
        {r : DnsResolver} {stack : NetworkStack net} (query : DnsQueryHandle)
        → Reach r stack
        → Reach (cancel query r) stack
    -- The network at work, and all other code, which frees no slot.
    works :
        {r : DnsResolver} {stack stack' : NetworkStack net}
        → Reach r stack
        → ((k q : ℕ) → state stack.sockets k q ≢ none → state stack'.sockets k q ≢ none)
        → Reach r stack'

  pub record IsTracked (r : DnsResolver) (stack : NetworkStack net) : Type 0 where
    pub unready : r.socket ≡ none → r.pending ≡ []
    pub tracked : (k : ℕ) → r.socket ≡ some k → Tracked (state stack.sockets k) r.pending

  abbrev Both : DnsResolver × NetworkStack net → Type 0
  Both x = IsTracked x.0 x.1

  init-IsTracked :
      (r : DnsResolver) (stack : NetworkStack net) → IsTracked r stack → Both (init net r stack)
  unfolding init
  init-IsTracked r stack h = elim (Option-cases r.socket) [
    | inr (k, p) ↦ subst Both {x = (r, stack)} (ground (arith, p)) h
    | inl p ↦ elim (Bool-cases (is_empty stack.dns_servers)) [
      | inl q ↦ subst Both {x = (r, stack)} (ground (arith, p, q)) h
      | inr q ↦
          let (k, s') = net.add_dns_socket stack.dns_servers stack.sockets in
          subst Both {x = (record r { socket = some k }, record stack { sockets = s' })}
            (ground (arith, p, q))
            (record {
              unready = λ z. h.unready p;
              tracked = λ j z. subst (Tracked (state s' j)) (sym (h.unready p)) tt;
            })
    ]
  ]

  -- A resolver with a socket is tracked if its entries are.
  from_socket :
      (r : DnsResolver) (stack : NetworkStack net) (k : ℕ)
      → r.socket ≡ some k
      → Tracked (state stack.sockets k) r.pending
      → IsTracked r stack
  from_socket r stack k p t = record {
    unready = λ z. absurd (ground arith);
    tracked = λ j z.
        let same : k ≡ j = ground arith in
        subst (λ i. Tracked (state stack.sockets i) r.pending) same t;
  }

  resolve_at :
      (hostname : List ℕ) (r : DnsResolver) (stack : NetworkStack net) (k : ℕ) (s' : net.Sockets)
      (o : QueryStart)
      → r.socket ≡ some k
      → Tracked (state stack.sockets k) r.pending
      → net.start_query stack.sockets k hostname ≡ (o, s')
      → Both ((resolve net hostname r stack).1, (resolve net hostname r stack).2)
  unfolding resolve start_dns_query
  resolve_at hostname r stack k s' (refused e) p t q =
      let same = slots.start_refused stack.sockets s' k hostname e q in
      subst Both {x = (r, record stack { sockets = s' })} (ground (arith, p, q)) (
        from_socket r (record stack { sockets = s' }) k p
          (carry_over (state stack.sockets k) (state s' k) r.pending
            (agree_all (state stack.sockets k) (state s' k) r.pending same) t))
  resolve_at hostname r stack k s' (started query) p t q =
      let (free, taken, same) = slots.start_takes stack.sockets s' k query hostname q in
      let entry : PendingQuery = record { id = r.next_id; query = query; hostname = hostname } in
      let r' : DnsResolver = record r {
        next_id = (r.next_id + 1) % 2 ^ 16;
        pending = r.pending ++ entry ∷ [];
      } in
      let apart = Apart-free (state stack.sockets k) query r.pending free t in
      subst Both {x = (r', record stack { sockets = s' })} (ground (arith, p, q)) (
        from_socket r' (record stack { sockets = s' }) k p
          (Tracked-snoc (state s' k) r.pending entry
            (carry_over (state stack.sockets k) (state s' k) r.pending
              (agree_elsewhere (state stack.sockets k) (state s' k) query r.pending same apart) t)
            (ground (arith, taken)) apart))

  resolve-IsTracked :
      (hostname : List ℕ) (r : DnsResolver) (stack : NetworkStack net)
      → IsTracked r stack
      → Both ((resolve net hostname r stack).1, (resolve net hostname r stack).2)
  unfolding resolve start_dns_query
  resolve-IsTracked hostname r stack h = elim (Option-cases r.socket) [
    | inl p ↦ subst Both {x = (r, stack)} (ground (arith, p)) h
    | inr (k, p) ↦ resolve_at hostname r stack k _ _ p (h.tracked k p) refl
  ]

  cancel-IsTracked :
      (query : DnsQueryHandle) (r : DnsResolver) (stack : NetworkStack net)
      → IsTracked r stack
      → IsTracked (cancel query r) stack
  unfolding cancel
  cancel-IsTracked query r stack h = elim (Option-cases (remove_id query.id r.pending)) [
    | inl p ↦ subst (λ x. IsTracked x stack) {x = r} (ground (arith, p)) h
    | inr ((e, others), p) ↦
        subst (λ x. IsTracked x stack) {x = record r { pending = others }} (ground (arith, p))
          (record {
            unready = λ z. absurd (ground (arith, h.unready z, p, remove_id));
            tracked = λ k z.
                (Tracked-remove_id (state stack.sockets k) query.id r.pending e others p
                  (h.tracked k z)).0;
          })
  ]

  -- What a poll of a tracked resolver leads to.
  poll-IsTracked :
      (r : DnsResolver) (stack : NetworkStack net)
      → IsTracked r stack
      → (results : List (NetResult DnsResult)) × (r' : DnsResolver) × (stack' : NetworkStack net)
        × (poll net r stack ≡ some (results, r', stack'))
        × IsTracked r' stack'
  unfolding poll
  poll-IsTracked r stack h = elim (Option-cases r.socket) [
    | inl p ↦ ([], r, stack, ground (arith, p), h)
    | inr (k, p) ↦
        let (s', q, t) = poll_lem slots r k stack p (h.tracked k p) in
        (_, _, _, q, from_socket _ _ k p t)
  ]

  Reach-IsTracked : {r : DnsResolver} {stack : NetworkStack net} → Reach r stack → IsTracked r stack
  unfolding new
  Reach-IsTracked (start stack) = record { unready = λ z. refl; tracked = λ k z. tt }
  Reach-IsTracked (inits {r} {stack} h) = init-IsTracked r stack (Reach-IsTracked h)
  Reach-IsTracked (resolves {r} {stack} hostname h) =
      resolve-IsTracked hostname r stack (Reach-IsTracked h)
  Reach-IsTracked (polls {r} {r'} {stack} {stack'} {results} h q) =
      let (a, b, c, q', t) = poll-IsTracked r stack (Reach-IsTracked h) in
      subst Both {x = (b, c)} {y = (r', stack')} (ground (arith, q, q')) t
  Reach-IsTracked (cancels {r} {stack} query h) = cancel-IsTracked query r stack (Reach-IsTracked h)
  Reach-IsTracked (works {r} {stack} {stack'} h taken) =
      let t = Reach-IsTracked h in
      record {
        unready = t.unready;
        tracked = λ k z.
            carry_held (state stack.sockets k) (state stack'.sockets k) r.pending (taken k)
              (t.tracked k z);
      }

  -- However a new resolver was initialised, resolved names, polled and cancelled, while the network
  -- and all other code free no slot, its next poll does not panic.
  pub Reach-poll :
      {r : DnsResolver} {stack : NetworkStack net} → Reach r stack → poll net r stack ≢ none
  Reach-poll {r} {stack} h =
      let (a, b, c, q, t) = poll-IsTracked r stack (Reach-IsTracked h) in λ z. absurd (ground arith)

  -- A result of a tracked query is given once: when the query is over, `get_result` answers what a
  -- poll would and drops the entry, and the same call made again panics.
  pub get_result-once :
      (query : DnsQueryHandle) (r : DnsResolver) (stack : NetworkStack net) (k : ℕ)
      (e : PendingQuery) (others : List PendingQuery) (result : QueryResult)
      (answer : NetResult DnsResult)
      → r.socket ≡ some k
      → remove_id query.id r.pending ≡ some (e, others)
      → state stack.sockets k query.handle ≡ some result
      → add_finished e (some result) [] ≡ answer ∷ []
      → (s' : net.Sockets) × (get_result net query r stack
          ≡ some (some answer, record r { pending = others }, record stack { sockets = s' }))
        × (get_result net query (record r { pending = others }) (record stack { sockets = s' })
            ≡ none)
  unfolding get_result take_result add_finished
  get_result-once query r stack k e others pending answer p found over a = absurd (ground arith)
  get_result-once query r stack k e others (answered addrs) answer p found over a =
      let (s', g, free, same) =
        slots.result_finished stack.sockets k query.handle (answered addrs) over (ground arith) in
      (
        s',
        ground (arith, p, g, found, a),
        ground (arith, p, slots.result_free s' k query.handle free),
      )
  get_result-once query r stack k e others failed answer p found over a =
      let (s', g, free, same) =
        slots.result_finished stack.sockets k query.handle failed over (ground arith) in
      (
        s',
        ground (arith, p, g, found, a),
        ground (arith, p, slots.result_free s' k query.handle free),
      )
