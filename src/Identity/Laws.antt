-- ===== src/Identity/Laws.antt =====
-- Theorems on generate_buffer_id.
use z_ipc.Identity.{
  generate_rounds, generate_buffer_id, Round, session_of, rotated, generate_round, random_session,
  is_rotating,
}
use z_ipc.State.{Generator, World}
use z_ipc.Base.{
  inl, inr, some, update, ◌∙◌, refl, ◌⊎◌, ◌+◌, zero, arith, ◌≢◌, true, suc, ◌^◌, ◌<◌, false, ◌≡◌, ℕ,
}
use z_ipc.Status.{ok, component_id_valid, is_ok, Status}
use z_ipc.Platform.{tick, Platform}
use z_ipc.Handle.{
  buffer_id_make, buffer_id_sequence, buffer_id_session, buffer_id_component, buffer_id_valid,
}
use z_ipc.Handle.Laws.{buffer_id_make_valid, buffer_id_round_trip}
use z_ipc.Word.{u32_max}
use mathlib.Core.Path.{subst}

-- No other thread is in the generator, and its words are in range.
pub record IsQuiet (w : World) (component : ℕ) : Type 0 where
  pub still : is_rotating (w.generators component).session_state ≡ false
  pub alone : (w.generators component).active ≡ 0
  pub in_range : (w.generators component).sequence < 2 ^ 32

-- What a draw leaves alone, and what a session that it returns satisfies.
record Draws (old_session : ℕ) (w : World) (r : Status × ℕ × World) : Type 0 where
  same_pool : r.2.pool ≡ w.pool
  same_generators : r.2.generators ≡ w.generators
  usable : is_ok r.0 ≡ true → (r.1 ≢ 0) × (r.1 ≢ old_session) × (r.1 < 2 ^ 24)

random_session-Draws :
    (p : Platform) (attempts old_session : ℕ) (w : World)
    → Draws old_session w (random_session p attempts old_session w)
unfolding random_session
random_session-Draws p zero old_session w = record {
  same_pool = refl;
  same_generators = refl;
  usable = λ h. cc;
}
random_session-Draws p (suc attempts) old_session w =
    let rest = random_session-Draws p attempts old_session (tick w) in
    record {
      same_pool = ground (arith, rest.same_pool);
      same_generators = ground (arith, rest.same_generators);
      usable = λ h. ground (arith, rest.usable);
    }

-- What a call makes of the generator: the pool is untouched, and a returned identity is that of the
-- generator's session, below the sequence that the next call takes.
pub record Outcome (component : ℕ) (w : World) (r : Status × ℕ × World) : Type 0 where
  pub same_pool : r.2.pool ≡ w.pool
  pub quiet : IsQuiet r.2 component
  pub named :
      is_ok r.0 ≡ true
      → (buffer_id_valid r.1 ≡ true)
        × (buffer_id_component r.1 ≡ component)
        × (buffer_id_session r.1 ≡ session_of (r.2.generators component).session_state)
        × (buffer_id_sequence r.1 + 1 ≡ (r.2.generators component).sequence)
  pub moved :
      is_ok r.0 ≡ true
      → (session_of (r.2.generators component).session_state
          ≢ session_of (w.generators component).session_state)
        ⊎ ((w.generators component).sequence < (r.2.generators component).sequence)

-- After a round that drew a session, the next one uses it.
record Ready (component : ℕ) (w w' : World) : Type 0 where
  same_pool : w'.pool ≡ w.pool
  quiet : IsQuiet w' component
  drawn : session_of (w'.generators component).session_state ≢ 0
  renewed :
      session_of (w'.generators component).session_state
      ≢ session_of (w.generators component).session_state
  restarted : (w'.generators component).sequence ≡ 0

module _ (p : Platform) (component : ℕ) (valid : component_id_valid component ≡ true) where
  not_spin : (w : World) → IsQuiet w component → generate_round p component w ≢ Round.spin
  unfolding generate_round rotated
  not_spin w q = ground arith

  round_again :
      (w w' : World)
      → IsQuiet w component
      → generate_round p component w ≡ Round.again w'
      → Ready component w w'
  unfolding generate_round rotated
  round_again w w' q h =
      let first = random_session-Draws p 16 0 w in
      let later = random_session-Draws p 16 (session_of (w.generators component).session_state) w in
      record {
        same_pool = ground (arith, first.same_pool, later.same_pool);
        quiet = record {
          still = ground (arith, first.usable, later.usable);
          alone = ground arith;
          in_range = ground arith;
        };
        drawn = ground (arith, first.usable, later.usable);
        renewed = ground (arith, first.usable, later.usable);
        restarted = ground arith;
      }

  -- The fields of the generator that a returned identity is made of.
  record Takes (w : World) (r : Status × ℕ × World) (g : Generator) : Type 0 where
    made : r.1 ≡ buffer_id_make component (session_of g.session_state) g.sequence
    drawn : session_of g.session_state ≢ 0
    below : g.sequence < u32_max
    kept : (r.2.generators component).session_state ≡ g.session_state
    next : (r.2.generators component).sequence ≡ g.sequence + 1

  round-Takes :
      (w : World) (r : Status × ℕ × World)
      → IsQuiet w component
      → generate_round p component w ≡ Round.done r.0 r.1 r.2
      → is_ok r.0 ≡ true
      → Takes w r (w.generators component)
  unfolding generate_round rotated
  round-Takes w r q h good = record {
    made = ground arith;
    drawn = ground arith;
    below = ground arith;
    kept = ground arith;
    next = ground arith;
  }

  Takes-named :
      (w : World) (r : Status × ℕ × World) (g : Generator)
      → Takes w r g
      → (buffer_id_valid r.1 ≡ true)
        × (buffer_id_component r.1 ≡ component)
        × (buffer_id_session r.1 ≡ session_of (r.2.generators component).session_state)
        × (buffer_id_sequence r.1 + 1 ≡ (r.2.generators component).sequence)
  Takes-named w r g t =
      let fields =
        buffer_id_round_trip component (session_of g.session_state) g.sequence valid (omega arith)
          (omega arith) in
      let fine =
        buffer_id_make_valid component (session_of g.session_state) g.sequence valid t.drawn
          (omega arith) t.below in
      (cc, cc, cc, ground (arith, fields))

  round_done :
      (w : World) (r : Status × ℕ × World)
      → IsQuiet w component
      → generate_round p component w ≡ Round.done r.0 r.1 r.2
      → Outcome component w r
  unfolding generate_round rotated
  round_done w r q h =
      let first = random_session-Draws p 16 0 w in
      let later = random_session-Draws p 16 (session_of (w.generators component).session_state) w in
      record {
        same_pool = ground (arith, first.same_pool, later.same_pool);
        quiet = record {
          still = ground (arith, first.same_generators, later.same_generators);
          alone = ground (arith, first.same_generators, later.same_generators);
          in_range = ground (arith, first.same_generators, later.same_generators);
        };
        named = λ good. Takes-named w r (w.generators component) (round-Takes w r q h good);
        moved = λ good. inr (omega (arith, (round-Takes w r q h good).next));
      }

  -- What a round returns that finds a session and a sequence left.
  abbrev taken : World → Status × ℕ × World
  taken w = (
    ok,
    buffer_id_make component (session_of (w.generators component).session_state)
        (w.generators component).sequence,
    record w {
      generators =
          update w.generators component
            (record (w.generators component) { sequence = (w.generators component).sequence + 1 });
    },
  )

  Ready-done :
      (w w' : World)
      → Ready component w w'
      → generate_round p component w' ≡ Round.done (taken w').0 (taken w').1 (taken w').2
  unfolding generate_round rotated
  Ready-done w w' r = ground arith

  Ready-Outcome : (w w' : World) → Ready component w w' → Outcome component w (taken w')
  Ready-Outcome w w' r =
      let later = round_done w' (taken w') r.quiet (Ready-done w w' r) in
      record {
        same_pool = later.same_pool ∙ r.same_pool;
        quiet = later.quiet;
        named = later.named;
        moved = λ good. inl (ground (arith, r.renewed));
      }

  -- With no other thread in the generator every call for a valid component returns, within two
  -- rounds: the pool is left alone, the generator is quiet again, and with ZIPC_OK the identity is
  -- valid, names the component and the current session, and is followed by the generator's next
  -- sequence.
  pub generate_buffer_id_total :
      (w : World)
      → IsQuiet w component
      → (r : Status × ℕ × World) × (generate_buffer_id p component w ≡ some r)
        × Outcome component w r
  unfolding generate_buffer_id generate_rounds
  generate_buffer_id_total w q = first (generate_round p component w) refl
    where
      first :
          (round : Round)
          → generate_round p component w ≡ round
          → (r : Status × ℕ × World) × (generate_buffer_id p component w ≡ some r)
            × Outcome component w r
      first Round.spin e = absurd (not_spin w q e)
      first (Round.again w') e =
          let ready = round_again w w' q e in
          (taken w', ground (arith, e, Ready-done w w' ready), Ready-Outcome w w' ready)
      first (Round.done status id w') e =
          ((status, id, w'), ground (arith, e), round_done w (status, id, w') q e)

  Outcome-of :
      (w : World) (r : Status × ℕ × World)
      → IsQuiet w component
      → generate_buffer_id p component w ≡ some r
      → Outcome component w r
  Outcome-of w r q h =
      let (made, e, o) = generate_buffer_id_total w q in
      let same : made ≡ r = cc in subst (Outcome component w) same o

  -- With no other thread in the generator, two identities that a valid component generates one
  -- after the other are different.
  pub generate_buffer_id_distinct :
      (w w1 w2 : World) (first second : ℕ)
      → IsQuiet w component
      → generate_buffer_id p component w ≡ some (ok, first, w1)
      → generate_buffer_id p component w1 ≡ some (ok, second, w2)
      → first ≢ second
  generate_buffer_id_distinct w w1 w2 first second q h k =
      let before = Outcome-of w (ok, first, w1) q h in
      let after = Outcome-of w1 (ok, second, w2) before.quiet k in
      λ same. ground (arith, before.named refl, after.named refl, after.moved refl)
