-- ===== src/Link/Reconcile/Whole.antt =====
-- A reconciliation as a whole.
use z_ipc.Base.{
  ℕ, true, false, Option, some, length, ◌<◌, ◌≡◌, ◌+◌, ◌||◌, ◌==◌, refl, arith, sym, ap, ◌∙◌,
  Bool-cases, inl, inr,
}
use z_ipc.Word.{u32}
use z_ipc.Status.{Status, ok, is_ok}
use z_ipc.State.{World}
use z_ipc.Platform.{Platform}
use z_ipc.Component.{Restart, component_epoch_recovering}
use z_ipc.Ring.{Ring}
use z_ipc.Ring.Laws.{IsRing, queue}
use z_ipc.Transport.{Transport}
use z_ipc.Link.{Link}
use z_ipc.Link.Reconcile.{
  finish_drain, Settled, settled, stopped, is_consumer, is_producer, RecoveryRing, after_slots,
  link_reconcile, reconcile_slots,
}
use z_ipc.Link.Reconcile.Slots.{left_behind, Passed, reconcile_slots_lem}
use z_ipc.Link.Reconcile.Drain.{from_first_live, drain_ring_lem}
use z_ipc.Protocol.Frame.{layout_of}
use mathlib.Core.Path.{subst}
use native.Mathlib.Nat.{zero-add}

-- The arguments that the call accepts.
pub record IsReconcilable (link : Link) (r : Restart) (w : World) : Type 0 where
  pub attached : r.attached ≡ true
  pub component : link.local_component ≡ r.component
  pub epoch : link.local_epoch ≡ r.epoch
  pub link_id : (link.link_id == 0) ≡ false
  pub next_epoch : r.epoch ≡ u32 (r.dead_epoch + 1)
  pub recovering : component_epoch_recovering w.pool r.component r.epoch ≡ true
  pub ring_based : link.ring_based ≡ true
  pub role : (is_producer link.role || is_consumer link.role) ≡ true
  pub has_recovery_ring : link.has_recovery_ring ≡ true

module _ {T : Type 0} (tr : Transport T) (access : RecoveryRing T) (p : Platform) (link : Link)
    (r : Restart) (t : T) (w : World) where
  -- What a reconciliation returns: with ZIPC_OK, nothing of the dead epoch is left behind at this
  -- end of the link, and at the consumer the ring starts with a live message.
  pub record Reconciled (x : Option (Status × ℕ × T × World)) : Type 0 where
    pub status : Status
    pub recovered : ℕ
    pub state : T
    pub world : World
    pub returns : x ≡ some (status, recovered, state, world)
    pub same_layout : layout_of world ≡ layout_of w
    pub cleared :
        is_ok status ≡ true
        → (j : ℕ) → j < w.pool.header.slot_count
        → left_behind link r (world.pool.controls j) ≡ false
    pub drained :
        is_ok status ≡ true
        → is_consumer link.role ≡ true
        → queue (access.ring state) ≡ from_first_live world (queue (access.ring t))

  accepted :
      (fuel recovered : ℕ)
      → IsReconcilable link r w
      → link_reconcile tr access p link fuel r recovered t w
        ≡ after_slots access link fuel
            (reconcile_slots tr p link r w.pool.header.slot_count 0 0 t w)
  unfolding link_reconcile
  accepted fuel recovered a = ground (
    arith, a.attached, a.component, a.epoch, a.link_id, a.next_epoch, a.recovering, a.ring_based,
    a.role, a.has_recovery_ring,
  )

  module _ (fuel : ℕ) (lens : (u : T) (ring : Ring) → access.ring (access.with_ring u ring) ≡ ring)
      (z : IsRing (access.ring t)) (enough : length (queue (access.ring t)) < fuel) where
    after :
        (x : Settled T)
        → Passed tr p link r 0 w.pool.header.slot_count t w x
        → Reconciled (after_slots access link fuel x)
    after (stopped status recovered u v) l =
        let bad : is_ok status ≡ false = l.failed refl in
        record {
          status = status;
          recovered = recovered;
          state = u;
          world = v;
          returns = refl;
          same_layout = l.same_layout;
          cleared = λ good. absurd cc;
          drained = λ good. absurd cc;
        }
    after (settled recovered u v) l = elim (Bool-cases (is_consumer link.role)) [
      | inl at_consumer ↦
          let kept : u ≡ t = l.kept at_consumer in
          let d =
            drain_ring_lem v fuel (queue (access.ring t)) (access.ring u)
              (subst (λ x. IsRing (access.ring x)) (sym kept) z)
              (ap (λ x. queue (access.ring x)) kept) enough in
          record {
            status = ok;
            recovered = recovered;
            state = access.with_ring u d.ring;
            world = v;
            returns =
                ground (arith, at_consumer) ∙ ap (finish_drain access recovered u v) d.returns;
            same_layout = l.same_layout;
            cleared = λ good j low. l.cleared refl j (omega arith) low;
            drained = λ good here. ap queue (lens u d.ring) ∙ d.remains;
          }
      | inr elsewhere ↦ record {
        status = ok;
        recovered = recovered;
        state = u;
        world = v;
        returns = ground (arith, elsewhere);
        same_layout = l.same_layout;
        cleared = λ good j low. l.cleared refl j (omega arith) low;
        drained = λ good here. absurd cc;
      }
    ]

    -- A reconciliation with accepted arguments, over a ring within its bounds whose depth divides
    -- 2^32, and with more fuel than it has messages, returns. With ZIPC_OK no slot is in CLAIMING
    -- under a token of the dead epoch that this end of the link may have left there, none at the
    -- consumer is in TRANSFER under one of a receive, and the consumer's ring has the messages from
    -- the first live one on.
    pub link_reconcile_lem :
        (recovered : ℕ)
        → IsReconcilable link r w
        → Reconciled (link_reconcile tr access p link fuel r recovered t w)
    link_reconcile_lem recovered a = subst Reconciled (sym (accepted fuel recovered a)) (
        after (reconcile_slots tr p link r w.pool.header.slot_count 0 0 t w) (
          subst
            (λ n.
              Passed tr p link r 0 n t w
                (reconcile_slots tr p link r w.pool.header.slot_count 0 0 t w))
            (zero-add w.pool.header.slot_count)
            (reconcile_slots_lem tr p link r w.pool.header.slot_count 0 0 t w)))
