-- ===== src/Baremetal/Order.antt =====
-- Theorems on the interrupt-driven ring: the messages of it are received once, in their order.
use z_ipc.Base.{
  inr, inl, ◌%◌, ◌∙◌, sym, ◌==◌, true, false, arith, leb, ap, if_elim, length, ◌≡◌, ℕ, [], ◌∷◌,
  ◌++◌, List,
}
use z_ipc.Ring.Laws.{length-queue, IsRing, queue, queue-pushed, pushed-IsRing, ring_pop_lem, count}
use z_ipc.Linux.{pl_ring_irq}
use z_ipc.Baremetal.{awaited, Signals, BareEndpoint}
use z_ipc.State.{Message}
use z_ipc.Ring.{ring_pop, Ring}
use z_ipc.Status.{no_buffer, is_ok, ok, transport, Status}
use z_ipc.Transport.{Token}
use z_ipc.Baremetal.Calls.{
  ring_take, once_out, bare_receive_commit, receive_pl_ring_irq, bare_receive_as, bare_send_as,
  bare_receive_begin, bare_receive, send_pl_ring, bare_send,
}
use mathlib.Core.Path.{subst}

-- The endpoint is of an interrupt-driven ring within its bounds, whose depth divides 2^32.
pub record IsBareRing (t : BareEndpoint) : Type 0 where
  pub kind : t.kind ≡ pl_ring_irq
  pub ring : IsRing t.ring

-- How a send ends: refused by a full ring, with nothing changed, or with the message behind the
-- queue, where a signal that fails leaves it published.
pub data BareSent (s : Signals) (t : BareEndpoint) (message : Message)
    : Status × BareEndpoint → Type 0 where
  refused_full : length (queue t.ring) ≡ t.ring.depth → BareSent s t message (transport, t)
  put_behind :
      {t1 : BareEndpoint}
      → IsBareRing t1
      → queue t1.ring ≡ queue t.ring ++ (message ∷ [])
      → BareSent s t message (once_out (s.notify t.calls), t1)

module _ (s : Signals) (quiet : (n : ℕ) (r : Ring) → s.peer n r ≡ r) (t : BareEndpoint)
    (z : IsBareRing t) where
  -- A receive takes the message off at once: neither the commit nor the abort that may follow
  -- changes the endpoint, and the token serves one of them.
  pub record TakesOff (message first : Message) (rest : List Message) : Type 0 where
    pub token : Token
    pub state : BareEndpoint
    pub begins : bare_receive_begin s message t ≡ (ok, first, token, state)
    pub sound : IsBareRing state
    pub remains : queue state.ring ≡ rest
    pub commits : bare_receive_commit token state ≡ (ok, record token { pending = false })
    pub once : is_ok (bare_receive_commit (record token { pending = false }) state).0 ≡ false

  send_as_lem : (message : Message) → bare_send s message t ≡ send_pl_ring s message t
  unfolding bare_send bare_send_as
  send_as_lem message = ap (λ k. bare_send_as s k message t) z.kind

  send_lem : (message : Message) → BareSent s t message (send_pl_ring s message t)
  unfolding send_pl_ring
  send_lem message =
      if_elim (BareSent s t message) (leb t.ring.depth (count t.ring))
        (λ no_room.
          refused_full (ground (arith, length-queue t.ring z.ring, z.ring.bounded, no_room)))
        λ room.
          put_behind
            (record {
              kind = z.kind;
              ring = pushed-IsRing t.ring z.ring message (ground (arith, room));
            })
            (queue-pushed t.ring z.ring message (ground (arith, room)))

  -- A pop that finds a message, as the receive does it.
  pop_taken :
      (r r' : Ring) (message first : Message)
      → ring_pop r message ≡ (ok, first, r')
      → ((r.consumer == r.producer) ≡ false)
        × (r.entries (r.consumer % r.depth) ≡ first)
        × (ring_take r ≡ r')
  unfolding ring_pop
  pop_taken r r' message first e = (ground (arith, e), ground (arith, e), ground (arith, e))

  pop_nothing :
      (r : Ring) (message : Message)
      → ring_pop r message ≡ (no_buffer, message, r)
      → (r.consumer == r.producer) ≡ true
  unfolding ring_pop
  pop_nothing r message e = ground (arith, e)

  receive_as_lem : (message : Message) → bare_receive s message t ≡ receive_pl_ring_irq s message t
  unfolding bare_receive bare_receive_as
  receive_as_lem message = ap (λ k. bare_receive_as s k message t) z.kind

  abbrev waited_ring : Ring
  waited_ring = s.peer t.calls t.ring

  waited-IsRing : IsRing waited_ring
  waited-IsRing = subst IsRing (sym (quiet t.calls t.ring)) z.ring

  abbrev token_of : Status → Token
  token_of status = record {
    position = 0;
    cookie = t.address;
    transactional = false;
    pending = is_ok status;
  }

  begin_lem :
      (message : Message)
      → let r = receive_pl_ring_irq s message t in
        bare_receive_begin s message t ≡ (r.0, r.1, token_of r.0, r.2)
  unfolding bare_receive_begin
  begin_lem message =
      ap (λ (r : Status × Message × BareEndpoint). (r.0, r.1, token_of r.0, r.2))
        (receive_as_lem message)

  taken_lem :
      (message first : Message) (r' : Ring)
      → is_ok (s.await t.calls) ≡ true
      → ring_pop waited_ring message ≡ (ok, first, r')
      → receive_pl_ring_irq s message t ≡ (ok, first, record (awaited s t) { ring = r' })
  unfolding receive_pl_ring_irq
  taken_lem message first r' signal run =
      let (some_held, is_first, is_rest) = pop_taken waited_ring r' message first run in
      ground (arith, signal, some_held, is_first, is_rest)

  nothing_lem :
      (message : Message)
      → is_ok (s.await t.calls) ≡ true
      → ring_pop waited_ring message ≡ (no_buffer, message, waited_ring)
      → receive_pl_ring_irq s message t ≡ (transport, message, awaited s t)
  unfolding receive_pl_ring_irq
  nothing_lem message signal run =
      let none_held = pop_nothing waited_ring message run in ground (arith, signal, none_held)

  -- How a receive ends after its signal.
  pub data BareReceived (message : Message) : Type 0 where
    refused_empty :
        queue t.ring ≡ []
        → bare_receive_begin s message t ≡ (transport, message, token_of transport, awaited s t)
        → BareReceived message
    taken :
        (first : Message) (rest : List Message)
        → queue t.ring ≡ first ∷ rest
        → TakesOff message first rest
        → BareReceived message

  takes_off :
      (message first : Message) (rest : List Message) (r' : Ring)
      → is_ok (s.await t.calls) ≡ true
      → ring_pop waited_ring message ≡ (ok, first, r')
      → IsRing r'
      → queue r' ≡ rest
      → TakesOff message first rest
  unfolding bare_receive_commit
  takes_off message first rest r' signal run z' held = record {
    token = token_of ok;
    state = record (awaited s t) { ring = r' };
    begins =
        begin_lem message
        ∙ ap (λ (r : Status × Message × BareEndpoint). (r.0, r.1, token_of r.0, r.2))
            (taken_lem message first r' signal run);
    sound = record { kind = z.kind; ring = z' };
    remains = held;
    commits = ground arith;
    once = ground arith;
  }

  -- On an interrupt-driven ring within its bounds whose depth divides 2^32, that the other side
  -- leaves alone: a full ring refuses a message and nothing changes, another one has it behind the
  -- queue; after a signal, a receive of an empty ring is refused, and any other returns the oldest
  -- message and takes it off before the commit, which succeeds once and changes no more.
  pub bare_receive-send :
      (message : Message)
      → is_ok (s.await t.calls) ≡ true
      → BareSent s t message (bare_send s message t) × BareReceived message
  bare_receive-send message signal = (
    subst (BareSent s t message) (sym (send_as_lem message)) (send_lem message),
    elim (ring_pop_lem waited_ring waited-IsRing message) [
      | inl (none_held, run) ↦ refused_empty (ap queue (sym (quiet t.calls t.ring)) ∙ none_held) (
          begin_lem message
          ∙ ap (λ (r : Status × Message × BareEndpoint). (r.0, r.1, token_of r.0, r.2))
              (nothing_lem message signal run))
      | inr (first, rest, r', held, run, z', e) ↦
          taken first rest (ap queue (sym (quiet t.calls t.ring)) ∙ held)
            (takes_off message first rest r' signal run z' e)
    ],
  )
