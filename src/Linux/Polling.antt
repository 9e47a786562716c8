-- ===== src/Linux/Polling.antt =====
-- The waits of the polling ring end, at the deadline at the latest.
use z_ipc.Base.{
  sym, ltb, if_elim, ℕ, zero, suc, Option, some, ◌+◌, ◌≤◌, ◌<◌, ◌≡◌, ◌≢◌, refl, arith, false, leb,
  ◌==◌, not, ◌&&◌,
}
use z_ipc.Status.{Status, ok, timeout, invalid_argument, is_ok}
use z_ipc.State.{Message}
use z_ipc.Ring.{Ring, ring_peek, ring_pop}
use z_ipc.Transport.{Token}
use z_ipc.Linux.{deadline_from, Os, Endpoint, made, waited, shm_ring_polling}
use z_ipc.Linux.Calls.{
  begin_polls, receive_polls, poll_deadline, poll_started, transport_receive_begin, begin_as,
  is_no_buffer, transport_receive, receive_as,
}
use mathlib.Core.Path.{subst}

-- The statuses of a wait on a polling ring: a message, the timeout, or a ring that is no ring.
pub data Answer : Status → Type 0 where
  message_found : Answer ok
  timed_out : Answer timeout
  no_ring : Answer invalid_argument

-- The call returns, with one of these.
pub data Ends {A : Type 0} (status_of : A → Status) : Option A → Type 0 where
  ends : (a : A) → Answer (status_of a) → Ends status_of (some a)

-- The status of what a wait returns.
abbrev pub begin_status : Status × Message × Token × Endpoint → Status
begin_status r = r.0

abbrev pub receive_status : Status × Message × Endpoint → Status
receive_status r = r.0

module _ (os : Os) where
  peek-Answer :
      (t : Endpoint) (message : Message)
      → is_no_buffer (ring_peek t.ring message 0).0 ≡ false
      → Answer (ring_peek t.ring message 0).0
  unfolding ring_peek
  peek-Answer t message =
      let P : Status × Message × ℕ → Type 0 = λ r. is_no_buffer r.0 ≡ false → Answer r.0 in
      if_elim P (ltb t.ring.depth 2) (λ shallow some_held. no_ring)
        λ deep.
          if_elim P (t.ring.consumer == t.ring.producer) (λ empty some_held. cc)
            λ held some_held. message_found

  pop-Answer :
      (t : Endpoint) (message : Message)
      → is_no_buffer (ring_pop t.ring message).0 ≡ false
      → Answer (ring_pop t.ring message).0
  unfolding ring_pop
  pop-Answer t message =
      let P : Status × Message × Ring → Type 0 = λ r. is_no_buffer r.0 ≡ false → Answer r.0 in
      if_elim P (ltb t.ring.depth 2) (λ shallow some_held. no_ring)
        λ deep.
          if_elim P (t.ring.consumer == t.ring.producer) (λ empty some_held. cc)
            λ held some_held. message_found

  -- A round that is not the last leaves one round less to the deadline.
  sooner :
      (rounds deadline_ns : ℕ) (t : Endpoint)
      → t.timeout_ns ≢ 0
      → deadline_ns ≤ os.time_ns (t.calls + suc rounds)
      → deadline_ns ≤ os.time_ns ((waited os t).calls + rounds)
  sooner rounds deadline_ns t timed late =
      let moved : t.calls + suc rounds ≡ suc t.calls + rounds = omega arith in
      subst (λ n. deadline_ns ≤ os.time_ns n) moved late

  -- At the last round the clock has reached the deadline.
  reached :
      (rounds deadline_ns : ℕ) (t : Endpoint)
      → t.timeout_ns ≢ 0
      → deadline_ns ≤ os.time_ns (t.calls + rounds)
      → (not (t.timeout_ns == 0) && leb deadline_ns (os.time_ns t.calls)) ≡ false
      → rounds ≢ 0
  reached rounds deadline_ns t timed late early last =
      let now : t.calls + rounds ≡ t.calls = omega arith in
      let at_end : deadline_ns ≤ os.time_ns t.calls =
        subst (λ n. deadline_ns ≤ os.time_ns n) now late in
      ground (arith, timed, early, at_end)

  begin_round :
      (fuel rounds deadline_ns : ℕ) (message : Message) (t : Endpoint)
      → t.timeout_ns ≢ 0
      → deadline_ns ≤ os.time_ns (t.calls + rounds)
      → (rounds ≢ 0
          → Ends begin_status
              (begin_polls os fuel deadline_ns (ring_peek t.ring message 0).1 (waited os t)))
      → Ends begin_status (begin_polls os (suc fuel) deadline_ns message t)
  unfolding begin_polls
  begin_round fuel rounds deadline_ns message t timed late rest =
      let r = ring_peek t.ring message 0 in
      if_elim (Ends begin_status) (is_ok r.0) (λ found. ends _ message_found)
        λ none_found.
          if_elim (Ends begin_status) (not (is_no_buffer r.0))
            (λ bad. ends _ (peek-Answer t message (ground (arith, bad))))
            λ empty.
              if_elim (Ends begin_status)
                (not (t.timeout_ns == 0) && leb deadline_ns (os.time_ns t.calls))
                (λ over. ends _ timed_out)
                λ early. rest (reached rounds deadline_ns t timed late early)

  begin_polls_end :
      (fuel rounds deadline_ns : ℕ) (message : Message) (t : Endpoint)
      → rounds < fuel
      → t.timeout_ns ≢ 0
      → deadline_ns ≤ os.time_ns (t.calls + rounds)
      → Ends begin_status (begin_polls os fuel deadline_ns message t)
  begin_polls_end zero rounds deadline_ns message t enough timed late = absurd (omega arith)
  begin_polls_end (suc fuel) zero deadline_ns message t enough timed late =
      begin_round fuel zero deadline_ns message t timed late λ more. absurd (more refl)
  begin_polls_end (suc fuel) (suc rounds) deadline_ns message t enough timed late =
      begin_round fuel (suc rounds) deadline_ns message t timed late λ more.
        begin_polls_end fuel rounds deadline_ns (ring_peek t.ring message 0).1 (waited os t)
          (omega arith) timed (sooner rounds deadline_ns t timed late)

  receive_round :
      (fuel rounds deadline_ns : ℕ) (message : Message) (t : Endpoint)
      → t.timeout_ns ≢ 0
      → deadline_ns ≤ os.time_ns (t.calls + rounds)
      → (rounds ≢ 0
          → Ends receive_status
              (receive_polls os fuel deadline_ns (ring_pop t.ring message).1 (waited os t)))
      → Ends receive_status (receive_polls os (suc fuel) deadline_ns message t)
  unfolding receive_polls
  receive_round fuel rounds deadline_ns message t timed late rest =
      let r = ring_pop t.ring message in
      if_elim (Ends receive_status) (not (is_no_buffer r.0))
        (λ other. ends _ (pop-Answer t message (ground (arith, other))))
        λ empty.
          if_elim (Ends receive_status)
            (not (t.timeout_ns == 0) && leb deadline_ns (os.time_ns t.calls))
            (λ over. ends _ timed_out) λ early. rest (reached rounds deadline_ns t timed late early)

  receive_polls_end :
      (fuel rounds deadline_ns : ℕ) (message : Message) (t : Endpoint)
      → rounds < fuel
      → t.timeout_ns ≢ 0
      → deadline_ns ≤ os.time_ns (t.calls + rounds)
      → Ends receive_status (receive_polls os fuel deadline_ns message t)
  receive_polls_end zero rounds deadline_ns message t enough timed late = absurd (omega arith)
  receive_polls_end (suc fuel) zero deadline_ns message t enough timed late =
      receive_round fuel zero deadline_ns message t timed late λ more. absurd (more refl)
  receive_polls_end (suc fuel) (suc rounds) deadline_ns message t enough timed late =
      receive_round fuel (suc rounds) deadline_ns message t timed late λ more.
        receive_polls_end fuel rounds deadline_ns (ring_pop t.ring message).1 (waited os t)
          (omega arith) timed (sooner rounds deadline_ns t timed late)

  -- A receive on a polling ring with a timeout, whatever the other side does, ends within
  -- `rounds + 1` rounds if the clock has reached the deadline `rounds` calls after the first round,
  -- with a message, with the timeout, or with the error of a ring that is not initialized; the
  -- first step of the two-step receive does so too.
  pub transport_receive_ends :
      (rounds fuel : ℕ) (message : Message) (t : Endpoint)
      → t.kind ≡ shm_ring_polling
      → t.timeout_ns ≢ 0
      → rounds < fuel
      → deadline_from (os.time_ns t.calls) t.timeout_ns ≤ os.time_ns (t.calls + 1 + rounds)
      → Ends begin_status (transport_receive_begin os fuel message t)
        × Ends receive_status (transport_receive os fuel message t)
  unfolding transport_receive_begin transport_receive begin_as receive_as
  transport_receive_ends rounds fuel message t polling timed enough late =
      let start : poll_started t ≡ made t = ground (arith, timed) in
      let limit : poll_deadline os t ≡ deadline_from (os.time_ns t.calls) t.timeout_ns =
        ground (arith, timed) in
      let moved : t.calls + 1 + rounds ≡ suc t.calls + rounds = omega arith in
      let late_enough =
        subst (λ n. deadline_from (os.time_ns t.calls) t.timeout_ns ≤ os.time_ns n) moved late in
      let limit_at = deadline_from (os.time_ns t.calls) t.timeout_ns in
      (
        subst (λ k. Ends begin_status (begin_as os fuel k message t)) (sym polling)
            (subst (λ d. Ends begin_status (begin_polls os fuel d message (poll_started t)))
              (sym limit)
              (subst (λ u. Ends begin_status (begin_polls os fuel limit_at message u)) (sym start)
                (begin_polls_end fuel rounds limit_at message (made t) enough timed late_enough))),
        subst (λ k. Ends receive_status (receive_as os fuel k message t)) (sym polling)
            (subst (λ d. Ends receive_status (receive_polls os fuel d message (poll_started t)))
              (sym limit)
              (subst (λ u. Ends receive_status (receive_polls os fuel limit_at message u))
                (sym start)
                (receive_polls_end fuel rounds limit_at message (made t) enough timed
                  late_enough))),
      )
