-- ===== src/Linux/Queue.antt =====
-- A polling ring is a queue of messages while the other side leaves it alone.
use z_ipc.Base.{
  ℕ, zero, suc, Option, some, none, List, [], ◌∷◌, ◌≡◌, refl, arith, false, true, leb, ◌==◌, not,
  ◌&&◌, if◌then◌else◌, inl, inr, ◌⊎◌, sym, ap, ◌∙◌, if_elim,
}
use z_ipc.Word.{u32}
use z_ipc.Status.{Status, ok, is_ok, no_buffer}
use z_ipc.State.{Message}
use z_ipc.Ring.{Ring, ring_peek, ring_pop, ring_push, ring_commit}
use z_ipc.Ring.Laws.{
  IsRing, ring_pop_lem, ring_push_lem, ring_commit-peek, Pushed, full, repeated, queued,
}
use z_ipc.Transport.{Token}
use z_ipc.Transport.Queue.{
  appended, already_there, no_room, IsQueue, Offers, Empty, waits, fails, Queued,
}
use z_ipc.Linux.{Os, Endpoint, made, waited, shm_ring_polling}
use z_ipc.Linux.Calls.{
  begin_polls, poll_deadline, poll_started, transport_receive_begin, begin_as, transport_send,
  send_as, is_no_buffer, transport_receive_commit, linux_transport,
}
use mathlib.Core.Path.{subst}
use z_ipc.Ring.Steps.{pop_next, pop_empty}

abbrev pub queue_of : Endpoint → List Message
queue_of t = z_ipc.Ring.Laws.queue t.ring

-- A polling ring within its bounds, whose depth divides 2^32.
pub record IsPolling (t : Endpoint) : Type 0 where
  pub kind : t.kind ≡ shm_ring_polling
  pub ring : IsRing t.ring

-- A pop that succeeds was the peek of the consumer's position.
peeked :
    (r r' : Ring) (message first : Message)
    → ring_pop r message ≡ (ok, first, r')
    → ring_peek r message 0 ≡ (ok, first, r.consumer)
unfolding ring_pop ring_peek
peeked r r' message first e = ground (arith, e)

-- An empty ring has nothing to peek.
nothing_peeked :
    (r : Ring) (message : Message)
    → ring_pop r message ≡ (no_buffer, message, r)
    → ring_peek r message 0 ≡ (no_buffer, message, 0)
unfolding ring_pop ring_peek
nothing_peeked r message e = ground (arith, e)

-- What a wait on an empty ring comes to.
data Unanswered : Option (Status × Message × Token × Endpoint) → Type 0 where
  no_answer : Unanswered none
  bad_answer :
      {status : Status} {other : Message} {token : Token} {t1 : Endpoint}
      → is_ok status ≡ false
      → IsPolling t1
      → queue_of t1 ≡ []
      → Unanswered (some (status, other, token, t1))

started : (t : Endpoint) → (poll_started t ≡ t) ⊎ (poll_started t ≡ made t)
started t =
    if_elim (λ u. (u ≡ t) ⊎ (u ≡ made t)) (t.timeout_ns == 0) (λ h. inl refl) (λ h. inr refl)

ring_started : (t : Endpoint) → (poll_started t).ring ≡ t.ring
ring_started t = elim (started t) [ inl e ↦ ap (λ u. u.ring) e | inr e ↦ ap (λ u. u.ring) e ]

IsPolling-started : (t : Endpoint) → IsPolling t → IsPolling (poll_started t)
IsPolling-started t s = elim (started t) [
  | inl e ↦ subst IsPolling (sym e) s
  | inr e ↦ subst IsPolling (sym e) (record { kind = s.kind; ring = s.ring })
]

module _ (os : Os) (quiet : (n : ℕ) (r : Ring) → os.peer n r ≡ r) where
  begins_as :
      (fuel : ℕ) (t : Endpoint) (message : Message)
      → IsPolling t
      → transport_receive_begin os fuel message t
        ≡ begin_polls os fuel (poll_deadline os t) message (poll_started t)
  unfolding transport_receive_begin begin_as
  begins_as fuel t message s = ap (λ k. begin_as os fuel k message t) s.kind

  IsPolling-waited : (t : Endpoint) → IsPolling t → IsPolling (waited os t)
  IsPolling-waited t s = record {
    kind = s.kind;
    ring = subst IsRing (sym (quiet t.calls t.ring)) s.ring;
  }

  queue-waited : (t : Endpoint) → queue_of t ≡ [] → queue_of (waited os t) ≡ []
  queue-waited t e = ap z_ipc.Ring.Laws.queue (quiet t.calls t.ring) ∙ e

  polls-Unanswered :
      (rounds deadline_ns : ℕ) (t : Endpoint) (message : Message)
      → IsPolling t
      → queue_of t ≡ []
      → Unanswered (begin_polls os rounds deadline_ns message t)
  unfolding begin_polls
  polls-Unanswered zero deadline_ns t message s e = no_answer
  polls-Unanswered (suc rounds) deadline_ns t message s e =
      let r = ring_peek t.ring message 0 in
      let run = nothing_peeked t.ring message (pop_empty t.ring message s.ring e) in
      let found : is_ok r.0 ≡ false = ap (λ x. is_ok x.0) run in
      let over : not (is_no_buffer r.0) ≡ false = ap (λ x. not (is_no_buffer x.0)) run in
      if_elim Unanswered (is_ok r.0) (λ h. absurd cc)
        λ h.
          if_elim Unanswered (not (is_no_buffer r.0)) (λ h2. absurd cc)
            λ h2.
              if_elim Unanswered (not (t.timeout_ns == 0) && leb deadline_ns (os.time_ns t.calls))
                (λ late. bad_answer refl (record { kind = s.kind; ring = s.ring }) e)
                λ early.
                  polls-Unanswered rounds deadline_ns (waited os t) r.1 (IsPolling-waited t s)
                    (queue-waited t e)

  Empty-from :
      (fuel : ℕ) (t : Endpoint) (message : Message)
      (x : Option (Status × Message × Token × Endpoint))
      → transport_receive_begin os (suc fuel) message t ≡ x
      → Unanswered x
      → Empty (linux_transport os (suc fuel)) IsPolling queue_of t message
  Empty-from fuel t message x run no_answer = waits run
  Empty-from fuel t message x run (bad_answer {status} {other} {token} {t1} bad s1 e1) =
      fails status other token t1 run bad s1 e1

  polls_next :
      (fuel deadline_ns : ℕ) (t : Endpoint) (message first : Message)
      → ring_peek t.ring message 0 ≡ (ok, first, t.ring.consumer)
      → begin_polls os (suc fuel) deadline_ns message t
        ≡ some (
          ok,
          first,
          record {
            position = t.ring.consumer;
            cookie = t.address;
            transactional = true;
            pending = true;
          },
          t,
        )
  unfolding begin_polls
  polls_next fuel deadline_ns t message first run = ground (arith, run)

  abbrev token_of : Endpoint → Token
  token_of t = record {
    position = t.ring.consumer;
    cookie = t.address;
    transactional = true;
    pending = true;
  }

  commit_next :
      (t : Endpoint)
      → IsPolling t
      → (ring_commit t.ring t.ring.consumer).0 ≡ ok
      → transport_receive_commit (token_of t) t ≡ (
        ok,
        record (token_of t) { pending = false },
        record t { ring = (ring_commit t.ring t.ring.consumer).1 },
      )
  unfolding transport_receive_commit
  commit_next t s done =
      let word : u32 t.ring.consumer ≡ t.ring.consumer = omega (arith, s.ring.consumer_word) in
      let same : ring_commit t.ring (u32 t.ring.consumer) ≡ ring_commit t.ring t.ring.consumer =
        ap (ring_commit t.ring) word in
      ground (arith, done, s.kind, same)

  Offers-started :
      (fuel : ℕ) (t u : Endpoint) (message first : Message) (rest : List Message)
      → transport_receive_begin os (suc fuel) message t
        ≡ begin_polls os (suc fuel) (poll_deadline os t) message u
      → IsPolling u
      → queue_of u ≡ first ∷ rest
      → Offers (linux_transport os (suc fuel)) IsPolling queue_of t message first rest
  Offers-started fuel t u message first rest same s e =
      let (r', run, z', e') = pop_next u.ring message first rest s.ring e in
      let seen = peeked u.ring r' message first run in
      let (popped, done, _) = ring_commit-peek u.ring s.ring message first 0 u.ring.consumer seen in
      let after : (ring_commit u.ring u.ring.consumer).1 ≡ r' = cc in
      let committed = commit_next u s done in
      record {
        token = token_of u;
        state = u;
        begins = same ∙ polls_next fuel (poll_deadline os t) u message first seen;
        commits = ap (λ x. x.0) committed;
        sound =
            subst (λ (x : Status × Token × Endpoint). IsPolling x.2) (sym committed)
              (record { kind = s.kind; ring = subst IsRing (sym after) z' });
        remains =
            ap (λ (x : Status × Token × Endpoint). queue_of x.2) committed
            ∙ ap z_ipc.Ring.Laws.queue after
            ∙ e';
      }

  push_from :
      (fuel : ℕ) (t : Endpoint) (message : Message) (x : Status × Ring)
      → IsPolling t
      → Pushed t.ring message x
      → Queued
          (linux_transport os fuel)
          IsPolling
          queue_of
          t
          message
          (if not (is_ok x.0) then (x.0, t) else (ok, record t { ring = x.1 }))
  push_from fuel t message x s (full held) = no_room refl s refl
  push_from fuel t message x s (repeated room again) = already_there again s refl
  push_from fuel t message x s (queued {r'} room fresh z' deep e') =
      appended fresh (record { kind = s.kind; ring = z' }) e'

  polling-push :
      (fuel : ℕ) (t : Endpoint) (message : Message)
      → IsPolling t
      → Queued (linux_transport os fuel) IsPolling queue_of t message (transport_send os message t)
  unfolding transport_send send_as
  polling-push fuel t message s =
      subst
        (λ k.
          Queued (linux_transport os fuel) IsPolling queue_of t message (send_as os k message t))
        (sym s.kind)
        (push_from fuel t message (ring_push t.ring message) s
          (ring_push_lem t.ring s.ring message))

  -- While the other side leaves the ring alone, a polling endpoint with a ring within its bounds
  -- whose depth divides 2^32 is the queue of messages that the link layer asks for, whatever the
  -- clock and the fuel are, if there is fuel for a round.
  pub polling-IsQueue : (fuel : ℕ) → IsQueue (linux_transport os (suc fuel)) IsPolling queue_of
  polling-IsQueue fuel = record {
    offer = λ t message first rest s e.
        Offers-started fuel t (poll_started t) message first rest (begins_as (suc fuel) t message s)
          (IsPolling-started t s) (ap z_ipc.Ring.Laws.queue (ring_started t) ∙ e);
    wait = λ t message s e.
        Empty-from fuel t message
          (begin_polls os (suc fuel) (poll_deadline os t) message (poll_started t))
          (begins_as (suc fuel) t message s)
          (polls-Unanswered (suc fuel) (poll_deadline os t) (poll_started t) message
            (IsPolling-started t s) (ap z_ipc.Ring.Laws.queue (ring_started t) ∙ e));
    push = λ t message s. polling-push (suc fuel) t message s;
  }
