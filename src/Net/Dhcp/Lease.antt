-- ===== src/Net/Dhcp/Lease.antt =====
-- kernel/src/net/dhcp.rs: what the state of the client says of the stack.
use sovelma_os.Prelude.{
  ℕ, ◌≡◌, ◌≢◌, refl, subst, [], ◌∷◌, Option, none, some, arith, Bool-cases, ◌<◌, Option-cases, inl,
  inr,
}
use sovelma_os.Net.Smoltcp.{
  Smoltcp, Ipv4Address, Ipv4Cidr, DhcpSocketEvent, configured, deconfigured,
}
use sovelma_os.Net.Stack.{NetworkStack, set_ip_config, set_dns_servers, push_or_keep}
use sovelma_os.Net.Dhcp.{
  idle, discovering, requesting, bound, link_local, DhcpConfig, cidr, link_local_fallback,
  DhcpClient, new, is_waiting, config_of, start, link_local_address, fallback_to_link_local,
  timed_out, handle_event, poll, renew,
}

module _ {net : Smoltcp} where
  -- Clients and stacks after `start`, `poll` and `renew` in any order. `works` is the network at
  -- work between them: it changes sockets and routes only.
  pub data Reach : DhcpClient → NetworkStack net → Type 0 where
    begins : (stack : NetworkStack net) → Reach new stack
    starts :
        {client : DhcpClient} {stack : NetworkStack net} (timestamp : ℕ)
        → Reach client stack
        → Reach (start net timestamp client stack).0 (start net timestamp client stack).1
    polls :
        {client : DhcpClient} {stack : NetworkStack net} (timestamp : ℕ)
        → Reach client stack
        → Reach (poll net timestamp client stack).1 (poll net timestamp client stack).2
    renews :
        {client : DhcpClient} {stack : NetworkStack net}
        → Reach client stack
        → Reach (renew net client stack).0 (renew net client stack).1
    works :
        {client : DhcpClient} {stack : NetworkStack net} (routes : net.Routes)
        (sockets : net.Sockets)
        → Reach client stack
        → Reach client (record stack { routes = routes; sockets = sockets })

  -- Idle exactly without a socket, never requesting, and with a start time if it has a socket; a
  -- bound client has a configuration, whose address is the stack's only one and whose servers are
  -- the stack's; a link-local client has the stack use its link-local address only.
  pub record IsConsistent (client : DhcpClient) (stack : NetworkStack net) : Type 0 where
    pub idle_only : client.socket ≡ none → client.state ≡ idle
    pub has_socket : client.state ≡ idle → client.socket ≡ none
    pub not_requesting : client.state ≢ requesting
    pub timed : client.start_time ≡ none → client.socket ≡ none
    pub lease :
        client.state ≡ bound
        → (config : DhcpConfig) × (client.config ≡ some config)
          × (stack.ip_addrs ≡ cidr config ∷ [])
          × (stack.dns_servers ≡ config.dns_servers)
    pub local :
        client.state ≡ link_local
        → stack.ip_addrs ≡ record { address = link_local_address net stack; prefix_len = 16 } ∷ []

  abbrev Both : DhcpClient × NetworkStack net → Type 0
  Both x = IsConsistent x.0 x.1

  new-IsConsistent : (stack : NetworkStack net) → IsConsistent new stack
  unfolding new
  new-IsConsistent stack = ground arith

  start-IsConsistent :
      (timestamp : ℕ) (client : DhcpClient) (stack : NetworkStack net)
      → IsConsistent client stack
      → Both (start net timestamp client stack)
  unfolding start
  start-IsConsistent timestamp client stack h = ground arith

  renew-IsConsistent :
      (client : DhcpClient) (stack : NetworkStack net)
      → IsConsistent client stack
      → Both (renew net client stack)
  unfolding renew
  renew-IsConsistent client stack h = elim (Option-cases client.socket) [
    | inl p ↦ subst Both {x = (client, stack)} (ground (arith, p)) h
    | inr (handle, p) ↦
        let client' = record client { state = discovering } in
        let stack' = record stack { sockets = net.reset_dhcp stack.sockets handle } in
        let c : IsConsistent client' stack' = ground (arith, p) in
        subst Both {x = (client', stack')} (ground (arith, p)) c
  ]

  works-IsConsistent :
      (client : DhcpClient) (stack : NetworkStack net) (routes : net.Routes) (sockets : net.Sockets)
      → IsConsistent client stack
      → IsConsistent client (record stack { routes = routes; sockets = sockets })
  unfolding link_local_address
  works-IsConsistent client stack routes sockets h = record {
    idle_only = h.idle_only;
    has_socket = h.has_socket;
    not_requesting = h.not_requesting;
    timed = h.timed;
    lease = h.lease;
    local = h.local;
  }

  module _ (fits : (ip : Ipv4Cidr) → net.push_addr [] ip ≡ some (ip ∷ [])) where
    set_ip_config_addrs :
        (ip : Ipv4Cidr) (gateway : Option Ipv4Address) (stack : NetworkStack net)
        → (set_ip_config net ip gateway stack).ip_addrs ≡ ip ∷ []
    unfolding set_ip_config push_or_keep
    set_ip_config_addrs ip gateway stack = ground (arith, fits ip)

    fallback-IsConsistent :
        (client : DhcpClient) (stack : NetworkStack net) (handle : ℕ)
        → client.socket ≡ some handle
        → IsConsistent client stack
        → Both (
          (fallback_to_link_local net client stack).1,
          (fallback_to_link_local net client stack).2,
        )
    unfolding fallback_to_link_local
    fallback-IsConsistent client stack handle p h =
        let at = set_ip_config_addrs _ none stack in
        record {
          idle_only = λ z. absurd (ground arith);
          has_socket = λ z. absurd (ground arith);
          not_requesting = ground arith;
          timed = h.timed;
          lease = λ z. absurd (ground arith);
          local = λ z. at;
        }

    event-IsConsistent :
        (timestamp : ℕ) (event : Option DhcpSocketEvent) (client : DhcpClient)
        (stack : NetworkStack net) (handle : ℕ)
        → client.socket ≡ some handle
        → IsConsistent client stack
        → Both (
          (handle_event net timestamp event client stack).1,
          (handle_event net timestamp event client stack).2,
        )
    unfolding handle_event config_of set_dns_servers
    event-IsConsistent timestamp none client stack handle p h = h
    event-IsConsistent timestamp (some (configured lease)) client stack handle p h = record {
      idle_only = λ z. absurd (ground arith);
      has_socket = λ z. absurd (ground arith);
      not_requesting = ground arith;
      timed = h.timed;
      lease = λ z. (config_of lease, refl, set_ip_config_addrs _ lease.router stack, refl);
      local = λ z. absurd (ground arith);
    }
    event-IsConsistent timestamp (some deconfigured) client stack handle p h = ground arith

    poll-IsConsistent :
        (timestamp : ℕ) (client : DhcpClient) (stack : NetworkStack net)
        → IsConsistent client stack
        → Both ((poll net timestamp client stack).1, (poll net timestamp client stack).2)
    unfolding poll
    poll-IsConsistent timestamp client stack h = elim (Option-cases client.socket) [
      | inl p ↦ subst Both {x = (client, stack)} (ground (arith, p)) h
      | inr (handle, p) ↦ elim (Bool-cases (timed_out net timestamp client)) [
        | inl q ↦ subst Both (ground (arith, p, q)) (fallback-IsConsistent client stack handle p h)
        | inr q ↦
            let (event, sockets') = net.poll_dhcp stack.sockets handle in
            subst Both (ground (arith, p, q)) (
              event-IsConsistent timestamp event client (record stack { sockets = sockets' }) handle
                p (works-IsConsistent client stack stack.routes sockets' h))
      ]
    ]

    -- Where the interface has room for one address: whatever starts, polls and renewals a client
    -- has seen, on a stack that nothing else configures, a client with a lease has the stack use
    -- exactly its address and its servers, a link-local one exactly its link-local address; the
    -- state for a request is never entered, and a client is idle exactly while it has no socket.
    pub Reach-IsConsistent :
        {client : DhcpClient} {stack : NetworkStack net}
        → Reach client stack
        → IsConsistent client stack
    Reach-IsConsistent (begins stack) = new-IsConsistent stack
    Reach-IsConsistent (starts {client} {stack} timestamp h) =
        start-IsConsistent timestamp client stack (Reach-IsConsistent h)
    Reach-IsConsistent (polls {client} {stack} timestamp h) =
        poll-IsConsistent timestamp client stack (Reach-IsConsistent h)
    Reach-IsConsistent (renews {client} {stack} h) =
        renew-IsConsistent client stack (Reach-IsConsistent h)
    Reach-IsConsistent (works {client} {stack} routes sockets h) =
        works-IsConsistent client stack routes sockets (Reach-IsConsistent h)

  -- A renewal keeps the time at which the client started: if that is longer ago than the timeout,
  -- the next poll falls back to the link-local address, whatever the server has answered, and the
  -- configuration of the old lease stays with the client.
  pub poll-renew :
      (timestamp handle began : ℕ) (client : DhcpClient) (stack : NetworkStack net)
      → client.socket ≡ some handle
      → client.start_time ≡ some began
      → client.link_local_timeout < net.elapsed timestamp began
      → let (client', stack') = renew net client stack in
        let (event, client'', stack'') = poll net timestamp client' stack' in
        (event ≡ some (link_local_fallback (link_local_address net stack)))
        × (client''.state ≡ link_local)
        × (client''.config ≡ client.config)
  unfolding poll renew timed_out is_waiting fallback_to_link_local link_local_address
  poll-renew timestamp handle began client stack p q late = ground (arith, p, q)
