-- ===== src/Identity.antt =====
-- Buffer identities (src/core/zipc.c: random_session, generate_buffer_id). One call runs with no
-- other thread in the generator: `active` is raised and lowered inside the call, and the rotating
-- flag is set only while the new session is drawn. A round that would wait for another thread is
-- `spin`.
pub mod Laws
use z_ipc.State.{Generator, World}
use z_ipc.Base.{
  ◌+◌, ◌||◌, zero, not, some, suc, none, ◌==◌, ◌^◌, ◌/◌, Option, if◌then◌else◌, update, ◌%◌, Bool,
  ℕ,
}
use z_ipc.Platform.{tick, Platform}
use z_ipc.Status.{invalid_argument, ok, component_id_valid, is_ok, entropy_unavailable, Status}
use z_ipc.Word.{u32_max}
use z_ipc.Handle.{buffer_id_make}

-- `state & ZIPC_SESSION_ROTATING` and `state & ZIPC_SESSION_MASK`
abbrev pub is_rotating : ℕ → Bool
is_rotating state = state / 2 ^ 31 % 2 == 1

abbrev pub session_of : ℕ → ℕ
session_of state = state % 2 ^ 24

-- With `attempts` draws left; 16 are made.
unfoldable pub random_session : Platform → ℕ → ℕ → World → Status × ℕ × World
random_session p zero old_session w = (entropy_unavailable, 0, w)
random_session p (suc attempts) old_session w =
    let rest = random_session p attempts old_session (tick w) in
    if not (is_ok (p.random w.calls).0)
    then (entropy_unavailable, 0, tick w)
    else if session_of (p.random w.calls).1 == 0 || (session_of (p.random w.calls).1 == old_session)
    then rest
    else (ok, session_of (p.random w.calls).1, tick w)

abbrev pub session_attempts : ℕ
session_attempts = 16

abbrev put_generator : World → ℕ → Generator → World
put_generator w component g = record w { generators = update w.generators component g }

-- One round of the loop.
pub data Round : Type 0 where
  spin : Round
  again : World → Round
  done : Status → ℕ → World → Round

-- A failed draw leaves the session as it was; a new session starts at sequence 0.
unfoldable pub rotated : ℕ → World → Status × ℕ × World → Round
rotated component before (status, session, w) =
    if is_ok status
    then again (
        put_generator w component
          (record (before.generators component) { session_state = session; sequence = 0 }))
    else done status 0 w

unfoldable pub generate_round : Platform → ℕ → World → Round
unfolding rotated
generate_round p component w =
    if is_rotating g.session_state
    then spin
    else if session_of g.session_state == 0
    then (if g.active == 0
        then rotated component w (random_session p session_attempts 0 w)
        else spin)
    else if g.active == u32_max
    then spin
    else if g.sequence == u32_max
    then (if g.active == 0
        then rotated component w (random_session p session_attempts (session_of g.session_state) w)
        else spin)
    else done ok (buffer_id_make component (session_of g.session_state) g.sequence)
        (put_generator w component (record g { sequence = g.sequence + 1 }))
  where
    g : Generator
    g = w.generators component

unfoldable pub generate_rounds : ℕ → Platform → ℕ → World → Option (Status × ℕ × World)
generate_rounds zero p component w = none
generate_rounds (suc fuel) p component w = elim (generate_round p component w) [
  | spin ↦ none
  | again w' ↦ generate_rounds fuel p component w'
  | done status id w' ↦ some (status, id, w')
]

-- A session is drawn at most once, so two rounds decide; `none` is a call that waits for ever.
unfoldable pub generate_buffer_id : Platform → ℕ → World → Option (Status × ℕ × World)
unfolding generate_rounds generate_round
generate_buffer_id p component w =
    if component_id_valid component
    then generate_rounds 2 p component w
    else some (invalid_argument, 0, w)
