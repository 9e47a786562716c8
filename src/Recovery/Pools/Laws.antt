-- ===== src/Recovery/Pools/Laws.antt =====
-- Theorems on zipc_pool_recover_owner and zipc_pool_recover_claiming, slot by slot.
use z_ipc.State.{put_slot, World, Slot}
use z_ipc.Platform.{tick, now_ns, protect_slot, Platform}
use z_ipc.Base.{
  update, Bool-cases, ◌≢◌, zero, if◌then◌else◌, if_elim, sym, refl, inr, inl, leb, true, ◌^◌, ◌==◌,
  suc, arith, ◌&&◌, false, ◌⊎◌, ◌+◌, ◌<◌, ◌||◌, ℕ, Bool, ◌≡◌,
}
use z_ipc.Recovery.Pools.{
  result_zero, emptied_slot, pool_recover_claiming, pool_recover_owner, recover_claiming_scan,
  recover_claiming_slot, recover_owner_scan, RecoveryResult, reclaimed_slot, recover_owner_slot,
  Owner,
}
use z_ipc.Status.{
  TraceEvent, component_stale, component_id_valid, is_claiming, ok, is_in_transfer, is_ok, Status,
  is_owned,
}
use z_ipc.Trace.{trace_external_event, trace_slot}
use mathlib.Core.Path.{subst}
use z_ipc.Component.{component_epoch_current}
use z_ipc.Word.{u32}
use z_ipc.Recovery.Restarts.{count_recovered}
use z_ipc.Platform.Laws.{pool-protect_slot}
use z_ipc.Protocol.Frame.{pool-trace_slot}
use z_ipc.Recovery.Pools.Pass.{
  Pass-stop, Pass-append, Pass-same, Pass-whole, Pass-none, Pass-one, Pass, Reclaimed,
}

is_ok_ok : (status : Status) → is_ok status ≡ true → status ≡ ok
is_ok_ok status good = ground arith

module _ (p : Platform) where
  -- What a recovery by owner frees: the slots that the component holds, or has sent and that are not
  -- yet received, in the dead epoch, and that are old enough.
  abbrev pub orphaned : Owner → Slot → Bool
  orphaned o s =
      (is_owned s.state || is_in_transfer s.state)
      && (s.owner_id == o.component)
      && (s.owner_epoch == o.dead_epoch)
      && ((o.minimum_age_ns == 0) || leb (s.acquired_ns + o.minimum_age_ns) o.now)

  module _ (o : Owner) (i : ℕ) (local : RecoveryResult) (w : World) (small : o.now < 2 ^ 64) where
    abbrev run : Status × RecoveryResult × World
    run = recover_owner_slot p o i local w

    abbrev closing : Status × World
    closing = protect_slot p w i false

    abbrev traced : Slot
    traced = (trace_slot p closing.1 i (w.pool.controls i) o.component TraceEvent.recovered).0

    owner_missed : orphaned o (w.pool.controls i) ≡ false → run.2.pool ≡ w.pool
    unfolding recover_owner_slot
    owner_missed miss = ground arith

    owner_failed :
        orphaned o (w.pool.controls i) ≡ true
        → is_ok closing.0 ≡ false
        → (run.0 ≡ closing.0) × (run.2 ≡ closing.1)
    unfolding recover_owner_slot
    owner_failed struck bad = (ground arith, ground arith)

    owner_freed :
        orphaned o (w.pool.controls i) ≡ true
        → is_ok closing.0 ≡ true
        → run.2
          ≡ count_recovered
              (put_slot
                (trace_slot p closing.1 i (w.pool.controls i) o.component TraceEvent.recovered).1
                i
                (reclaimed_slot traced))
              o.component
    unfolding recover_owner_slot
    owner_freed struck good = ground arith

    traced-Reclaimed : Reclaimed (w.pool.controls i) (reclaimed_slot traced)
    unfolding reclaimed_slot trace_slot
    traced-Reclaimed = record {
      state = refl;
      owner_id = refl;
      next_owner_id = refl;
      region = refl;
      generation = refl;
    }

    recover_owner_slot_lem : Pass (orphaned o) i (i + 1) run.0 w run.2
    recover_owner_slot_lem = elim (Bool-cases (orphaned o (w.pool.controls i))) [
      | inl struck ↦ elim (Bool-cases (is_ok closing.0)) [
        | inl good ↦
            let same : closing.1.pool ≡ w.pool = pool-protect_slot p w i false in
            let traced_pool =
              pool-trace_slot p closing.1 i (w.pool.controls i) o.component TraceEvent.recovered in
            Pass-one (orphaned o) i run.0 w run.2 (reclaimed_slot traced) struck
              (ground (arith, owner_freed struck good, traced_pool, same))
              (ground (arith, owner_freed struck good, traced_pool, same)) traced-Reclaimed
        | inr bad ↦
            let (st, end) = owner_failed struck bad in
            Pass-same (orphaned o) i run.0 w run.2 (inl (ground (arith, st, bad)))
              (ground (arith, end, pool-protect_slot p w i false))
      ]
      | inr miss ↦ Pass-same (orphaned o) i run.0 w run.2 (inr miss) (owner_missed miss)
    ]

  recover_owner_scan_lem :
      (n : ℕ) (o : Owner) (i : ℕ) (local : RecoveryResult) (w : World)
      → o.now < 2 ^ 64
      → let r = recover_owner_scan n p o i local w in Pass (orphaned o) i (i + n) r.0 w r.2
  unfolding recover_owner_scan
  recover_owner_scan_lem zero o i local w small = Pass-none (orphaned o) i w
  recover_owner_scan_lem (suc n) o i local w small =
      let (status, local', w1) = recover_owner_slot p o i local w in
      let one = recover_owner_slot_lem o i local w small in
      let rest = recover_owner_scan_lem n o (i + 1) local' w1 small in
      let r = recover_owner_scan n p o (i + 1) local' w1 in
      if_elim (λ (r : Status × RecoveryResult × World). Pass (orphaned o) i (i + suc n) r.0 w r.2)
        (is_ok status)
        (λ good.
          Pass-append (orphaned o) i n r.0 w w1 r.2
            (subst (λ s. Pass (orphaned o) i (i + 1) s w w1) (is_ok_ok status good) one) rest)
        λ bad. Pass-stop (orphaned o) i n status w w1 bad one

  module _ (i : ℕ) (w : World) where
    abbrev end : Status × Bool × World
    end = recover_claiming_slot p i w

    claiming_missed : is_claiming (w.pool.controls i).state ≡ false → end.2.pool ≡ w.pool
    unfolding recover_claiming_slot
    claiming_missed miss = ground arith

    claiming_failed :
        is_claiming (w.pool.controls i).state ≡ true
        → is_ok (protect_slot p w i false).0 ≡ false
        → (end.0 ≡ (protect_slot p w i false).0) × (end.2 ≡ (protect_slot p w i false).1)
    unfolding recover_claiming_slot
    claiming_failed struck bad = (ground arith, ground arith)

    claiming_freed :
        is_claiming (w.pool.controls i).state ≡ true
        → is_ok (protect_slot p w i false).0 ≡ true
        → (end.2.pool.controls
            ≡ update
                (protect_slot p w i false).1.pool.controls
                i
                (emptied_slot (w.pool.controls i)))
          × (end.2.pool.header.slot_count ≡ (protect_slot p w i false).1.pool.header.slot_count)
    unfolding recover_claiming_slot trace_external_event
    claiming_freed struck good = (ground arith, ground arith)

    emptied-Reclaimed : Reclaimed (w.pool.controls i) (emptied_slot (w.pool.controls i))
    unfolding emptied_slot
    emptied-Reclaimed = record {
      state = refl;
      owner_id = refl;
      next_owner_id = refl;
      region = refl;
      generation = refl;
    }

    recover_claiming_slot_lem : Pass (λ s. is_claiming s.state) i (i + 1) end.0 w end.2
    recover_claiming_slot_lem =
        let hit : Slot → Bool = λ s. is_claiming s.state in
        let closing = protect_slot p w i false in
        let same : closing.1.pool ≡ w.pool = pool-protect_slot p w i false in
        elim (Bool-cases (is_claiming (w.pool.controls i).state)) [
          | inl struck ↦ elim (Bool-cases (is_ok closing.0)) [
            | inl good ↦
                let (put, count) = claiming_freed struck good in
                Pass-one hit i end.0 w end.2 (emptied_slot (w.pool.controls i)) struck
                  (ground (arith, put, same)) (ground (arith, count, same)) emptied-Reclaimed
            | inr bad ↦
                let (st, stop) = claiming_failed struck bad in
                Pass-same hit i end.0 w end.2 (inl (ground (arith, st, bad)))
                  (ground (arith, stop, same))
          ]
          | inr miss ↦ Pass-same hit i end.0 w end.2 (inr miss) (claiming_missed miss)
        ]

  recover_claiming_scan_lem :
      (n i count : ℕ) (w : World)
      → let r = recover_claiming_scan n p i count w in
        Pass (λ s. is_claiming s.state) i (i + n) r.0 w r.2
  unfolding recover_claiming_scan
  recover_claiming_scan_lem zero i count w = Pass-none (λ s. is_claiming s.state) i w
  recover_claiming_scan_lem (suc n) i count w =
      let hit : Slot → Bool = λ s. is_claiming s.state in
      let (status, more, w1) = recover_claiming_slot p i w in
      let counted = if more then u32 (count + 1) else count in
      let one = recover_claiming_slot_lem i w in
      let rest = recover_claiming_scan_lem n (i + 1) counted w1 in
      let r = recover_claiming_scan n p (i + 1) counted w1 in
      if_elim (λ (r : Status × ℕ × World). Pass hit i (i + suc n) r.0 w r.2) (is_ok status)
        (λ good.
          Pass-append hit i n r.0 w w1 r.2
            (subst (λ s. Pass hit i (i + 1) s w w1) (is_ok_ok status good) one) rest)
        λ bad. Pass-stop hit i n status w w1 bad one

  -- A recovery of what a nonzero dead epoch of a valid component left, with the clock of the call
  -- in 64 bits: with ZIPC_OK every slot that the component owned or had in transfer in that epoch,
  -- and that is at least as old as asked for, is free and without owner; every other slot is as
  -- before, whatever the status. A component that is registered in that epoch is refused with
  -- nothing changed.
  pub pool_recover_owner_lem :
      (component dead_epoch minimum_age_ns : ℕ) (result : RecoveryResult) (w : World)
      → now_ns p w < 2 ^ 64
      → component_id_valid component ≡ true
      → dead_epoch ≢ 0
      → let r = pool_recover_owner p component dead_epoch minimum_age_ns result w in
        (component_epoch_current w.pool component dead_epoch ≡ true
          × (r ≡ (component_stale, result, w)))
        ⊎ (component_epoch_current w.pool component dead_epoch ≡ false
            × Pass
                (orphaned (record {
                  component = component;
                  dead_epoch = dead_epoch;
                  minimum_age_ns = minimum_age_ns;
                  now = now_ns p w;
                }))
                0
                w.pool.header.slot_count
                r.0
                w
                r.2)
  unfolding pool_recover_owner component_epoch_current
  pool_recover_owner_lem component dead_epoch minimum_age_ns result w small valid some_epoch =
      elim (Bool-cases (component_epoch_current w.pool component dead_epoch)) [
        | inl current ↦ inl (current, ground (arith, valid, some_epoch, current))
        | inr gone ↦ inr (
          gone,
          subst
              (λ (r : Status × RecoveryResult × World).
                Pass (orphaned owner) 0 w.pool.header.slot_count r.0 w r.2)
              (sym (runs gone)) swept,
        )
      ]
    where
      owner : Owner
      owner = record {
        component = component;
        dead_epoch = dead_epoch;
        minimum_age_ns = minimum_age_ns;
        now = now_ns p w;
      }

      swept :
          let r = recover_owner_scan w.pool.header.slot_count p owner 0 result_zero (tick w) in
          Pass (orphaned owner) 0 w.pool.header.slot_count r.0 w r.2
      swept =
          let r = recover_owner_scan w.pool.header.slot_count p owner 0 result_zero (tick w) in
          Pass-whole (orphaned owner) w.pool.header.slot_count r.0 w (tick w) r.2 refl
            (recover_owner_scan_lem w.pool.header.slot_count owner 0 result_zero (tick w) small)

      runs :
          component_epoch_current w.pool component dead_epoch ≡ false
          → pool_recover_owner p component dead_epoch minimum_age_ns result w
            ≡ recover_owner_scan w.pool.header.slot_count p owner 0 result_zero (tick w)
      runs gone = ground (arith, valid, some_epoch, gone)

  -- A recovery of interrupted claims: with ZIPC_OK every slot that was in CLAIMING is free and without
  -- owner; every other slot is as before, whatever the status.
  pub pool_recover_claiming_lem :
      (w : World)
      → let r = pool_recover_claiming p w in
        Pass (λ s. is_claiming s.state) 0 w.pool.header.slot_count r.0 w r.2
  unfolding pool_recover_claiming
  pool_recover_claiming_lem w =
      let r = recover_claiming_scan w.pool.header.slot_count p 0 0 w in
      Pass-whole (λ s. is_claiming s.state) w.pool.header.slot_count r.0 w w r.2 refl
        (recover_claiming_scan_lem w.pool.header.slot_count 0 0 w)
