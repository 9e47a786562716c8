-- ===== src/Recovery/Restarts/Laws.antt =====
-- Theorems on the scan of a restart, zipc_component_restart_next.
use z_ipc.Component.{registered_epoch, component_epoch_recovering, lifecycle_of, Restart}
use z_ipc.Platform.{Platform}
use z_ipc.State.{buffer_invalid, Buffer, World}
use z_ipc.Base.{
  ==_refl, ◌==◌, zero, ◌-◌, suc, refl, ◌∙◌, sym, arith, true, false, ◌^◌, ℕ, ◌<◌, ◌+◌, ◌≤◌, ◌≡◌,
}
use z_ipc.Word.{u32}
use z_ipc.Status.{ok, is_ok, Status}
use z_ipc.Recovery.Restarts.Visits.{
  yields, Visited-visit_slot, stops, passes, Visited, IsRestart, Sweeps, cleared,
}
use native.Mathlib.Decide.{ℕ_discrete}
use mathlib.Core.Path.{subst}
use z_ipc.Recovery.Restarts.{
  component_restart_next, visit_slot, yielded, stopped, passed, Visit, restart_scan,
}
use z_ipc.Buffer.{buffer_owned}
use z_ipc.Handle.{component_lifecycle_epoch, component_lifecycle_state, component_lifecycle_make}

-- The slots before the cursor, and once the scan is complete all slots, are cleared.
pub record Swept (r : Restart) (w : World) : Type 0 where
  pub in_pool : r.cursor ≤ w.pool.header.slot_count
  pub before_cursor : (j : ℕ) → j < r.cursor → cleared r (w.pool.controls j) ≡ true
  pub when_complete : r.scan_complete ≡ true → r.cursor ≡ w.pool.header.slot_count

-- The same restart further on.
pub record Continues (r r' : Restart) : Type 0 where
  pub attached : r'.attached ≡ r.attached
  pub component : r'.component ≡ r.component
  pub dead_epoch : r'.dead_epoch ≡ r.dead_epoch
  pub epoch : r'.epoch ≡ r.epoch
  pub cursor : r.cursor ≤ r'.cursor

-- The ways in which a call ends.
pub record NextStep (r : Restart) (w : World) (o : Status × Restart × Buffer × World) : Type 0 where
  pub continues : Continues r o.1
  pub swept : Swept o.1 o.3
  pub lifecycles : (c : ℕ) → lifecycle_of o.3.pool c ≡ lifecycle_of w.pool c
  pub slot_count : o.3.pool.header.slot_count ≡ w.pool.header.slot_count
  pub handed :
      is_ok o.0 ≡ true
      → (r.cursor < o.1.cursor)
        × (o.2.owner ≡ r.component)
        × (o.2.owner_epoch ≡ r.epoch)
        × (buffer_owned o.3 o.2 ≡ (registered_epoch o.3.pool r.component == r.epoch))
  pub finished :
      o.1.scan_complete ≡ true
      → (j : ℕ) → j < w.pool.header.slot_count
      → cleared r (o.3.pool.controls j) ≡ true

module _ (p : Platform) where
  Swept-advance :
      (r : Restart) (w w' : World)
      → w.pool.header.slot_count < 2 ^ 32
      → Swept r w
      → r.cursor < w.pool.header.slot_count
      → Sweeps w r.cursor w'
      → cleared r (w'.pool.controls r.cursor) ≡ true
      → Swept (record r { cursor = u32 (r.cursor + 1) }) w'
  Swept-advance r w w' small s low moves clear = record {
    in_pool = omega (arith, moves.slot_count);
    before_cursor = λ j lt. elim (ℕ_discrete r.cursor j) [
      | yes e ↦ subst (λ j. cleared r (w'.pool.controls j) ≡ true) e clear
      | no ne ↦
          subst (λ t. cleared r t ≡ true) (sym (moves.others j ne))
            (s.before_cursor j (omega arith))
    ];
    when_complete = λ done. absurd (omega (arith, s.when_complete done));
  }

  module _ (r : Restart) (w : World) (small : w.pool.header.slot_count < 2 ^ 32) (s : Swept r w)
      (low : r.cursor < w.pool.header.slot_count) where
    stopped_step :
        (status : Status) (w' : World)
        → is_ok status ≡ false
        → Sweeps w r.cursor w'
        → NextStep r w (status, r, buffer_invalid, w')
    stopped_step status w' bad moves = record {
      continues = record {
        attached = refl;
        component = refl;
        dead_epoch = refl;
        epoch = refl;
        cursor = omega arith;
      };
      swept = record {
        in_pool = omega (arith, moves.slot_count);
        before_cursor = λ j lt.
            subst (λ t. cleared r t ≡ true) (sym (moves.others j (omega arith)))
              (s.before_cursor j lt);
        when_complete = λ done. absurd (omega (arith, s.when_complete done));
      };
      lifecycles = moves.lifecycles;
      slot_count = moves.slot_count;
      handed = λ good. absurd (ground arith);
      finished = λ done. absurd (omega (arith, s.when_complete done));
    }

    yielded_step :
        (view : Buffer) (w' : World)
        → Sweeps w r.cursor w'
        → cleared r (w'.pool.controls r.cursor) ≡ true
        → view.owner ≡ r.component
        → view.owner_epoch ≡ r.epoch
        → buffer_owned w' view ≡ (registered_epoch w'.pool r.component == r.epoch)
        → NextStep r w (ok, record r { cursor = u32 (r.cursor + 1) }, view, w')
    yielded_step view w' moves clear owner epoch held = record {
      continues = record {
        attached = refl;
        component = refl;
        dead_epoch = refl;
        epoch = refl;
        cursor = omega arith;
      };
      swept = Swept-advance r w w' small s low moves clear;
      lifecycles = moves.lifecycles;
      slot_count = moves.slot_count;
      handed = λ good. (omega arith, owner, epoch, held);
      finished = λ done. absurd (omega (arith, s.when_complete done));
    }

    passed_step :
        (w' : World) (o : Status × Restart × Buffer × World)
        → Sweeps w r.cursor w'
        → NextStep (record r { cursor = u32 (r.cursor + 1) }) w' o
        → NextStep r w o
    passed_step w' o moves later = record {
      continues = record {
        attached = later.continues.attached;
        component = later.continues.component;
        dead_epoch = later.continues.dead_epoch;
        epoch = later.continues.epoch;
        cursor = omega (arith, later.continues.cursor);
      };
      swept = later.swept;
      lifecycles = λ c. later.lifecycles c ∙ moves.lifecycles c;
      slot_count = later.slot_count ∙ moves.slot_count;
      handed = λ good.
          let (further, owner, epoch, held) = later.handed good in
          (omega arith, owner, epoch, held);
      finished = λ done j lt. later.finished done j (omega (arith, moves.slot_count));
    }

  scan_step :
      (n : ℕ) (r : Restart) (w : World) (z : IsRestart r) (short : r.cursor < 2 ^ 32)
      → w.pool.header.slot_count < 2 ^ 32
      → Swept r w
      → r.cursor < w.pool.header.slot_count
      → (v : Visit) → Visited p r z r.cursor short w v
      → ((w' : World)
          → Sweeps w r.cursor w'
          → cleared r (w'.pool.controls r.cursor) ≡ true
          → NextStep
              (record r { cursor = u32 (r.cursor + 1) })
              w'
              (restart_scan n p (record r { cursor = u32 (r.cursor + 1) }) w'))
      → NextStep r w (elim v [
        | passed w' ↦ restart_scan n p (record r { cursor = u32 (r.cursor + 1) }) w'
        | stopped status w' ↦ (status, r, buffer_invalid, w')
        | yielded view w' ↦ (ok, record r { cursor = u32 (r.cursor + 1) }, view, w')
      ])
  scan_step n r w z short small s low (passed w') (passes moves clear) later =
      passed_step r w small s low w'
        (restart_scan n p (record r { cursor = u32 (r.cursor + 1) }) w') moves
        (later w' moves clear)
  scan_step n r w z short small s low (stopped status w') (stops bad moves) later =
      stopped_step r w small s low status w' bad moves
  scan_step n r w z short small s low (yielded view w') (yields moves clear v) later =
      yielded_step r w small s low view w' moves clear v.3 v.4 v.2

  restart_scan_lem :
      (n : ℕ) (r : Restart) (w : World)
      → IsRestart r
      → w.pool.header.slot_count < 2 ^ 32
      → Swept r w
      → r.cursor + n ≡ w.pool.header.slot_count
      → NextStep r w (restart_scan n p r w)
  unfolding restart_scan
  restart_scan_lem zero r w z small s end = record {
    continues = record {
      attached = refl;
      component = refl;
      dead_epoch = refl;
      epoch = refl;
      cursor = omega arith;
    };
    swept = record {
      in_pool = s.in_pool;
      before_cursor = s.before_cursor;
      when_complete = λ done. omega arith;
    };
    lifecycles = λ c. refl;
    slot_count = refl;
    handed = λ good. absurd (ground arith);
    finished = λ done j lt. s.before_cursor j (omega arith);
  }
  restart_scan_lem (suc n) r w z small s end =
      scan_step n r w z (omega arith) small s (omega arith) (visit_slot p r r.cursor w)
        (Visited-visit_slot p r z r.cursor (omega arith) w)
        (λ w' moves clear.
          restart_scan_lem n (record r { cursor = u32 (r.cursor + 1) }) w'
            (record {
              epoch_word = z.epoch_word;
              next_epoch = z.next_epoch;
              component_valid = z.component_valid;
            })
            (omega (arith, moves.slot_count))
            (Swept-advance r w w' small s (omega arith) moves clear)
            (omega (arith, moves.slot_count)))

  -- A call of the scan of a restart whose epoch is recovering, in a pool of less than 2^32 slots
  -- and with the slots before the cursor cleared: it keeps the restart, the lifecycles and the
  -- cleared slots and never moves the cursor back; with ZIPC_OK it moved it on and hands out a
  -- buffer of the component in the new epoch; and once the scan is complete no slot of the pool is
  -- owned or being claimed by the dead epoch.
  pub component_restart_next_lem :
      (r : Restart) (buffer : Buffer) (w : World)
      → IsRestart r
      → r.attached ≡ true
      → component_epoch_recovering w.pool r.component r.epoch ≡ true
      → w.pool.header.slot_count < 2 ^ 32
      → Swept r w
      → NextStep r w (component_restart_next p r buffer w)
  unfolding component_restart_next
  component_restart_next_lem r buffer w z attached going small s = subst (NextStep r w) (sym runs) (
      restart_scan_lem (w.pool.header.slot_count - r.cursor) r w z small s
        (omega (arith, s.in_pool)))
    where
      runs :
          component_restart_next p r buffer w
          ≡ restart_scan (w.pool.header.slot_count - r.cursor) p r w
      runs = ground (arith, attached, going, z.next_epoch)

  recovering_registered :
      (r : Restart) (w : World)
      → IsRestart r
      → component_epoch_recovering w.pool r.component r.epoch ≡ true
      → registered_epoch w.pool r.component ≡ r.epoch
  unfolding component_epoch_recovering registered_epoch component_lifecycle_make
      component_lifecycle_state component_lifecycle_epoch
  recovering_registered r w z going = ground (arith, z.next_epoch, z.component_valid)

  registered_same :
      (w w' : World) (component : ℕ)
      → lifecycle_of w'.pool component ≡ lifecycle_of w.pool component
      → registered_epoch w'.pool component ≡ registered_epoch w.pool component
  unfolding registered_epoch
  registered_same w w' component same = ground (arith, same)

  -- In a pool of less than 2^32 slots, with the slots before the cursor cleared, a buffer that a
  -- call of the scan of a restart whose epoch is recovering hands out is owned by the restarted
  -- component in its new epoch.
  pub component_restart_next_owned :
      (r : Restart) (buffer : Buffer) (w : World)
      → IsRestart r
      → r.attached ≡ true
      → component_epoch_recovering w.pool r.component r.epoch ≡ true
      → w.pool.header.slot_count < 2 ^ 32
      → Swept r w
      → is_ok (component_restart_next p r buffer w).0 ≡ true
      → let o = component_restart_next p r buffer w in
        (buffer_owned o.3 o.2 ≡ true) × (o.2.owner ≡ r.component) × (o.2.owner_epoch ≡ r.epoch)
  component_restart_next_owned r buffer w z attached going small s good =
      let o = component_restart_next p r buffer w in
      let step = component_restart_next_lem r buffer w z attached going small s in
      let (further, owner, epoch, held) = step.handed good in
      let here : registered_epoch o.3.pool r.component ≡ r.epoch =
        registered_same w o.3 r.component (step.lifecycles r.component)
        ∙ recovering_registered r w z going in
      (held ∙ rw here (==_refl r.epoch), owner, epoch)
