-- ===== src/Recovery/Restarts/Whole.antt =====
-- Theorems on a restart from zipc_component_restart_begin to zipc_component_restart_finish.
use z_ipc.Platform.{Platform}
use z_ipc.Base.{◌∙◌, ◌^◌, arith, ◌<◌, true, ◌≡◌, ℕ}
use z_ipc.Component.{
  lifecycle_of, component_restart_finish, component_epoch_recovering, component_restart_begin,
  Restart,
}
use z_ipc.State.{Buffer, World}
use z_ipc.Handle.{component_lifecycle_make, component_lifecycle_epoch}
use z_ipc.Recovery.Restarts.{component_restart_next}
use z_ipc.Recovery.Restarts.Visits.{cleared, IsRestart}
use z_ipc.Status.{ok}
use z_ipc.Recovery.Restarts.Laws.{Swept, component_restart_next_lem}
use z_ipc.Component.Laws.{IsWord}

-- The restart and the world after some calls of zipc_component_restart_next.
pub data Scans (p : Platform) (r : Restart) (w : World) : Restart → World → Type 0 where
  none_made : Scans p r w r w
  one_more :
      {r1 : Restart} {w1 : World}
      → Scans p r w r1 w1
      → (buffer : Buffer)
      → Scans p r w
          (component_restart_next p r1 buffer w1).1
          (component_restart_next p r1 buffer w1).3

-- A restart in the middle of its scan.
pub record Running (component dead_epoch slot_count : ℕ) (r : Restart) (w : World) : Type 0 where
  pub restart : IsRestart r
  pub attached : r.attached ≡ true
  pub component_same : r.component ≡ component
  pub dead_same : r.dead_epoch ≡ dead_epoch
  pub recovering : component_epoch_recovering w.pool r.component r.epoch ≡ true
  pub count_same : w.pool.header.slot_count ≡ slot_count
  pub small : w.pool.header.slot_count < 2 ^ 32
  pub swept : Swept r w

module _ (p : Platform) (component dead_epoch : ℕ) where
  pub Running-begin :
      (restart r : Restart) (w w1 : World)
      → component_restart_begin p w component dead_epoch restart ≡ (ok, r, w1)
      → IsWord w component
      → w.pool.header.slot_count < 2 ^ 32
      → Running component dead_epoch w.pool.header.slot_count r w1
  unfolding component_restart_begin component_lifecycle_epoch component_lifecycle_make
      component_epoch_recovering
  Running-begin restart r w w1 e word small = record {
    restart = record {
      epoch_word = ground arith;
      next_epoch = ground arith;
      component_valid = ground arith;
    };
    attached = ground arith;
    component_same = ground arith;
    dead_same = ground arith;
    recovering = ground arith;
    count_same = ground arith;
    small = ground arith;
    swept = record {
      in_pool = ground arith;
      before_cursor = λ j low. absurd (ground arith);
      when_complete = λ done. absurd (ground arith);
    };
  }

  recovering_same :
      (r r' : Restart) (w w' : World)
      → r'.component ≡ r.component
      → r'.epoch ≡ r.epoch
      → lifecycle_of w'.pool r.component ≡ lifecycle_of w.pool r.component
      → component_epoch_recovering w.pool r.component r.epoch ≡ true
      → component_epoch_recovering w'.pool r'.component r'.epoch ≡ true
  unfolding component_epoch_recovering
  recovering_same r r' w w' same_component same_epoch same going =
      rw (same_component, same_epoch) (ground (arith, same, going))

  Running-next :
      (slot_count : ℕ) (r : Restart) (buffer : Buffer) (w : World)
      → Running component dead_epoch slot_count r w
      → let o = component_restart_next p r buffer w in
        Running component dead_epoch slot_count o.1 o.3
  Running-next slot_count r buffer w n =
      let o = component_restart_next p r buffer w in
      let s =
        component_restart_next_lem p r buffer w n.restart n.attached n.recovering n.small n.swept in
      record {
        restart = record {
          epoch_word = ground (arith, s.continues.dead_epoch, n.restart.epoch_word);
          next_epoch =
              ground (arith, s.continues.dead_epoch, s.continues.epoch, n.restart.next_epoch);
          component_valid = rw (s.continues.component) n.restart.component_valid;
        };
        attached = s.continues.attached ∙ n.attached;
        component_same = s.continues.component ∙ n.component_same;
        dead_same = s.continues.dead_epoch ∙ n.dead_same;
        recovering =
            recovering_same r o.1 w o.3 s.continues.component s.continues.epoch
              (s.lifecycles r.component) n.recovering;
        count_same = s.slot_count ∙ n.count_same;
        small = rw (s.slot_count) n.small;
        swept = s.swept;
      }

  Running-Scans :
      (slot_count : ℕ) (r : Restart) (w : World) (r' : Restart) (w' : World)
      → Running component dead_epoch slot_count r w
      → Scans p r w r' w'
      → Running component dead_epoch slot_count r' w'
  Running-Scans slot_count r w r' w' n none_made = n
  Running-Scans slot_count r w r' w' n (one_more {r1} {w1} earlier buffer) =
      Running-next slot_count r1 buffer w1 (Running-Scans slot_count r w r1 w1 n earlier)

  finish_runs :
      (r : Restart) (w : World)
      → IsRestart r
      → r.attached ≡ true
      → r.scan_complete ≡ true
      → component_epoch_recovering w.pool r.component r.epoch ≡ true
      → (component_restart_finish p w r).0 ≡ ok
  unfolding component_restart_finish component_epoch_recovering
  finish_runs r w z attached complete going =
      ground (arith, z.next_epoch, attached, complete, going)

  -- A restart that began, of a component whose lifecycle is a 64-bit word and in a pool of less
  -- than 2^32 slots, and whose scan some calls of zipc_component_restart_next have completed with
  -- no one else acting on the pool: no slot of the pool is owned by the dead epoch or being
  -- claimed under a token of it, and the restart can be finished.
  pub component_restart_complete :
      (restart r r' : Restart) (w w1 w' : World)
      → component_restart_begin p w component dead_epoch restart ≡ (ok, r, w1)
      → IsWord w component
      → w.pool.header.slot_count < 2 ^ 32
      → Scans p r w1 r' w'
      → r'.scan_complete ≡ true
      → ((j : ℕ) → j < w.pool.header.slot_count → cleared r (w'.pool.controls j) ≡ true)
        × ((component_restart_finish p w' r').0 ≡ ok)
  component_restart_complete restart r r' w w1 w' e word small scans complete =
      let begun = Running-begin restart r w w1 e word small in
      let n = Running-Scans w.pool.header.slot_count r w1 r' w' begun scans in
      (
        λ j low. ground (
          arith,
          n.swept.before_cursor j (omega (arith, n.swept.when_complete complete, n.count_same)),
          n.component_same,
          n.dead_same,
          begun.component_same,
          begun.dead_same,
        ),
        finish_runs r' w' n.restart n.attached complete n.recovering,
      )
