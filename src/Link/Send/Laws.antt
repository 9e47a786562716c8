-- ===== src/Link/Send/Laws.antt =====
-- Theorems on what `zipc_send` does.
use z_ipc.Base.{
  ◌&&◌, Bool, ap, ℕ, true, false, some, ◌≡◌, refl, arith, ◌^◌, ◌<◌, ◌||◌, ◌==◌, not, if_elim, sym,
  ◌∙◌,
}
use z_ipc.Word.{sub32}
use z_ipc.Status.{
  error, is_ok_only, Status, ok, is_ok, transport_published, claiming, invalid_component_id,
}
use z_ipc.Handle.{handle_slot_id, claim_token_make, rollback}
use z_ipc.State.{World, Buffer, Message, Slot, buffer_invalid}
use z_ipc.Platform.{protect_slot, Platform}
use z_ipc.Buffer.{buffer_owned}
use z_ipc.Protocol.Frame.{Frame, Frame-trans, Frame-of_pool, core_of}
use z_ipc.Protocol.Transfer.{buffer_prepare_transfer_internal}
use z_ipc.Protocol.Transfer.Laws.{Sent, buffer_prepare_transfer_lem}
use z_ipc.Protocol.Transfer.Conditions.{buffer_prepare_transfer_iff, CanSend}
use z_ipc.Transport.{Transport, message_zero}
use z_ipc.Link.{Link, epoch_stale}
use z_ipc.Link.Send.{
  is_published_only, link_send, settle_send, lose_buffer, rollback_transfer, is_published,
}
use z_ipc.Link.Send.Rollback.{Published, RolledBack, rollback_transfer_lem}
use z_ipc.Trace.{trace_external_event}
use mathlib.Core.Path.{subst}

-- The view names the slot that its handle names.
pub record IsAnchored (b : Buffer) : Type 0 where
  pub control : b.control ≡ some (handle_slot_id b.handle)
  pub index : b.slot_id ≡ handle_slot_id b.handle

module _ {T : Type 0} (tr : Transport T) (p : Platform) (link : Link) (b : Buffer) (t : T)
    (w : World) where
  abbrev slot_id : ℕ
  slot_id = handle_slot_id b.handle

  abbrev before : Slot
  before = w.pool.controls slot_id

  abbrev SentBy : World → Message → Type 0
  SentBy w1 message =
      Sent w.pool.pool_id b.handle link.local_component link.remote_component link.link_id before
        (w1.pool.controls slot_id) message

  abbrev prepared : Status × Message × World
  prepared =
      buffer_prepare_transfer_internal p b.handle link.local_component link.remote_component
        link.link_id message_zero w

  -- The caller may send: it owns the buffer, in the epoch of the link and not a stale one, of this
  -- link's component, and its slot goes into transfer.
  abbrev pub may_send : Bool
  may_send =
      buffer_owned w b
      && not (epoch_stale w link || not (b.owner_epoch == link.local_epoch))
      && not (not b.attached || not (b.owner == link.local_component))
      && is_ok prepared.0

  -- The ways in which a send ends.
  pub data Sending : Status × Buffer × T × World → Type 0 where
    refused :
        {status : Status} {w1 : World}
        → is_ok status ≡ false
        → may_send ≡ false
        → Frame w slot_id w1
        → core_of (w1.pool.controls slot_id) ≡ core_of before
        → Sending (status, b, t, w1)
    given_back :
        {status : Status} {t1 : T} {w1 : World} (message : Message)
        → tr.send message t ≡ (status, t1)
        → is_ok status ≡ false
        → is_published status ≡ false
        → Frame w slot_id w1
        → core_of (w1.pool.controls slot_id)
          ≡ core_of (record before { next_owner_id = invalid_component_id })
        → (w1.pool.controls slot_id).claim_token ≡ 0
        → Sending (status, b, t1, w1)
    interrupted :
        {status closed : Status} {t1 : T} {w1 : World} (message : Message)
        → tr.send message t ≡ (status, t1)
        → is_ok status ≡ false
        → is_published status ≡ false
        → is_ok closed ≡ false
        → (protect_slot p prepared.2 slot_id true).0 ≡ closed
        → Frame w slot_id w1
        → (w1.pool.controls slot_id).state ≡ claiming
        → (w1.pool.controls slot_id).claim_token
          ≡ claim_token_make rollback link.local_component link.local_epoch
        → Sending (closed, buffer_invalid, t1, w1)
    published :
        {t1 : T} {w1 : World} (message : Message)
        → tr.send message t ≡ (transport_published, t1)
        → Frame w slot_id w1
        → SentBy w1 message
        → Sending (transport_published, buffer_invalid, t1, w1)
    sent :
        {t1 : T} {w1 : World} (message : Message)
        → tr.send message t ≡ (ok, t1)
        → Frame w slot_id w1
        → SentBy w1 message
        → Sending (ok, buffer_invalid, t1, w1)

  module _ (a : IsAnchored b) (word : before.transfer_sequence < 2 ^ 32)
      (good : is_ok prepared.0 ≡ true) where
    abbrev w1 : World
    w1 = prepared.2

    able : CanSend p b.handle link.local_component link.remote_component link.link_id w
    able =
        (buffer_prepare_transfer_iff p b.handle link.local_component link.remote_component
            link.link_id message_zero w).0
          good

    transferred : SentBy w1 prepared.1
    transferred =
        (buffer_prepare_transfer_lem p b.handle link.local_component link.remote_component
            link.link_id message_zero w).succeeded
          good

    framed : Frame w slot_id w1
    framed =
        (buffer_prepare_transfer_lem p b.handle link.local_component link.remote_component
          link.link_id message_zero w).frame

    on_its_way : Published p link b slot_id prepared.1 w1
    on_its_way =
        let s = transferred in
        let c = able in
        record {
          control = a.control;
          index = a.index;
          state = ground (arith, s.core);
          claim_token = s.claim_token;
          generation = ground (arith, s.core, s.described, c.generation);
          owner_id = ground (arith, s.core, c.owner_id);
          next_owner_id = ground (arith, s.core);
          sequence = ground (arith, s.core, s.described);
        }

    rolled : RolledBack p link b slot_id prepared.1 w1 (rollback_transfer p link b prepared.1 w1)
    rolled = rollback_transfer_lem p link b slot_id prepared.1 w1 on_its_way

    restored :
        is_ok (rollback_transfer p link b prepared.1 w1).0 ≡ true
        → core_of ((rollback_transfer p link b prepared.1 w1).1.pool.controls slot_id)
          ≡ core_of (record before { next_owner_id = invalid_component_id })
    restored opens =
        let s = transferred in
        let c = able in
        let back = (rolled.opened opens).0 in
        let sequence : sub32 prepared.1.transfer_sequence 1 ≡ before.transfer_sequence =
          ground (arith, s.described, word) in
        ground (arith, back, s.core, c.state, sequence)

    abbrev traced : World → World
    traced u =
        trace_external_event p u prepared.1.handle prepared.1.transfer_sequence link.local_component
          error

    lost :
        (status : Status) (t1 : T)
        → is_published status ≡ true
        → tr.send prepared.1 t ≡ (status, t1)
        → Sending (status, buffer_invalid, t1, traced w1)
    unfolding trace_external_event
    lost status t1 out e =
        let is = is_published_only status out in
        subst (λ x. Sending (x, buffer_invalid, t1, traced w1)) (sym is)
          (published prepared.1 (e ∙ ap (λ x. (x, t1)) is)
            (Frame-trans framed (Frame-of_pool slot_id refl)) transferred)

    handed_over :
        (status : Status) (t1 : T)
        → is_ok status ≡ true
        → tr.send prepared.1 t ≡ (status, t1)
        → Sending (ok, buffer_invalid, t1, w1)
    handed_over status t1 fine e =
        sent prepared.1 (e ∙ ap (λ x. (x, t1)) (is_ok_only status fine)) framed transferred

    stuck :
        (status : Status) (t1 : T)
        → is_ok status ≡ false
        → is_published status ≡ false
        → is_ok (rollback_transfer p link b prepared.1 w1).0 ≡ false
        → tr.send prepared.1 t ≡ (status, t1)
        → Sending (
          (rollback_transfer p link b prepared.1 w1).0,
          buffer_invalid,
          t1,
          traced (rollback_transfer p link b prepared.1 w1).1,
        )
    unfolding trace_external_event
    stuck status t1 failed unpublished closed e =
        interrupted prepared.1 e failed unpublished closed (sym rolled.status)
          (Frame-trans framed (Frame-trans rolled.frame (Frame-of_pool slot_id refl)))
          (rolled.closed closed).0 (rolled.closed closed).1

    settle_send_lem :
        (status : Status) (t1 : T)
        → tr.send prepared.1 t ≡ (status, t1)
        → Sending (settle_send p link b prepared.1 status t1 w1)
    unfolding settle_send lose_buffer
    settle_send_lem status t1 e =
        let undoing = rollback_transfer p link b prepared.1 w1 in
        if_elim Sending (is_published status) (λ out. lost status t1 out e)
          λ kept.
            if_elim Sending (not (is_ok status))
              (λ failed.
                if_elim Sending (not (is_ok undoing.0))
                  (λ closed.
                    stuck status t1 (ground (arith, failed)) kept (ground (arith, closed)) e)
                  λ opens.
                    given_back prepared.1 e (ground (arith, failed)) kept
                      (Frame-trans framed rolled.frame) (restored (ground (arith, opens)))
                      (rolled.opened (ground (arith, opens))).1)
              λ fine. handed_over status t1 (ground (arith, fine)) e

  pub link_send_lem :
      IsAnchored b → before.transfer_sequence < 2 ^ 32 → Sending (link_send tr p link b t w)
  unfolding link_send
  link_send_lem a word =
      if_elim Sending (not (buffer_owned w b))
        (λ h. refused refl (ground (arith, h)) (Frame-of_pool slot_id refl) refl)
        λ mine.
          if_elim Sending (epoch_stale w link || not (b.owner_epoch == link.local_epoch))
            (λ h. refused refl (ground (arith, h)) (Frame-of_pool slot_id refl) refl)
            λ current.
              if_elim Sending (not b.attached || not (b.owner == link.local_component))
                (λ h. refused refl (ground (arith, h)) (Frame-of_pool slot_id refl) refl)
                λ local.
                  if_elim Sending (not (is_ok prepared.0))
                    (λ bad.
                      let l =
                        buffer_prepare_transfer_lem p b.handle link.local_component
                          link.remote_component link.link_id message_zero w in
                      refused (ground (arith, bad)) (ground (arith, bad)) l.frame
                        (l.refused (ground (arith, bad))).0)
                    λ good.
                      settle_send_lem a word (ground (arith, good)) (tr.send prepared.1 t).0
                        (tr.send prepared.1 t).1 refl
