-- ===== src/Protocol/Interleaving/Exclusion.antt =====
-- Theorems on the interleaved accesses to the state of a slot.
use z_ipc.Protocol.Interleaving.Tokens.{IsTokened, IsTokened-Step, nothing_firm}
use z_ipc.Protocol.Interleaving.{
  blocked, seen, withdrawing, move_to, sees_state, see_state, withdraws, drops, publishes, works,
  takes_state, takes_over, takes_token, at_start, Step, then_step, drop_token, Steps, publish_state,
  take_state, take_over_token, take_token, outside, published, claiming_slot, noted, Callers, Phase,
}
use z_ipc.Base.{◌&&◌, refl, ◌==◌, if_elim, arith, update, true, ◌≡◌, false, ℕ, Bool}
use z_ipc.Status.{is_in_transfer, claiming, SlotState, is_claiming}
use z_ipc.State.{cas_state, cas_token}
use z_ipc.Handle.{receive, send, claim_code, claim_token_kind}

-- The caller is in CLAIMING.
abbrev pub is_inside : Phase → Bool
is_inside outside = false
is_inside (blocked token observed) = false
is_inside (seen token observed) = false
is_inside (noted token) = false
is_inside (withdrawing token) = false
is_inside (claiming_slot token) = true
is_inside (published token) = false

pub record IsExclusive (c : Callers) : Type 0 where
  pub state : (a : ℕ) → is_inside (c.phase a) ≡ true → is_claiming c.slot.state ≡ true
  pub one_only : (a b : ℕ) → is_inside (c.phase a) ≡ true → is_inside (c.phase b) ≡ true → a ≡ b
  pub someone : is_claiming c.slot.state ≡ true → (a : ℕ) × (is_inside (c.phase a) ≡ true)

-- No caller but one changes its phase, and neither is in CLAIMING before or after.
IsExclusive-outside :
    (c d : Callers) (caller : ℕ) (phase : Phase)
    → IsExclusive c
    → is_inside (c.phase caller) ≡ false
    → is_inside phase ≡ false
    → d.phase ≡ update c.phase caller phase
    → is_claiming d.slot.state ≡ is_claiming c.slot.state
    → IsExclusive d
IsExclusive-outside c d caller phase x before after moved same = record {
  state = λ a inside. ground (arith, x.state a, moved, same);
  one_only = λ a b ia ib. x.one_only a b (ground (arith, moved)) (ground (arith, moved));
  someone = λ busy.
      let (a, inside) = x.someone (ground (arith, same)) in (a, ground (arith, moved, inside));
}

IsExclusive-entered :
    (c d : Callers) (caller : ℕ) (phase : Phase)
    → IsExclusive c
    → is_claiming c.slot.state ≡ false
    → is_inside phase ≡ true
    → d.phase ≡ update c.phase caller phase
    → is_claiming d.slot.state ≡ true
    → IsExclusive d
IsExclusive-entered c d caller phase x free_before after moved busy = record {
  state = λ a inside. busy;
  one_only = λ a b ia ib. ground (arith, x.state a, x.state b, free_before, moved, ia, ib);
  someone = λ _. (caller, ground (arith, moved, after));
}

IsExclusive-left :
    (c d : Callers) (caller : ℕ) (phase : Phase)
    → IsExclusive c
    → is_inside (c.phase caller) ≡ true
    → is_inside phase ≡ false
    → d.phase ≡ update c.phase caller phase
    → is_claiming d.slot.state ≡ false
    → IsExclusive d
IsExclusive-left c d caller phase x before after moved idle = record {
  state = λ a inside. ground (arith, x.one_only a caller, before, moved, inside, after);
  one_only = λ a b ia ib.
      ground (arith, x.one_only a caller, x.one_only b caller, before, moved, ia, ib, after);
  someone = λ busy. absurd (ground (arith, busy, idle));
}

module _ (c : Callers) (x : IsExclusive c) where
  IsExclusive-moved :
      (caller : ℕ) (phase : Phase)
      → is_inside (c.phase caller) ≡ false
      → is_inside phase ≡ false
      → IsExclusive (move_to caller phase c)
  IsExclusive-moved caller phase before after =
      IsExclusive-outside c (move_to caller phase c) caller phase x before after refl refl

  IsExclusive-take_token :
      (caller token : ℕ) → c.phase caller ≡ outside → IsExclusive (take_token caller token c)
  unfolding take_token
  IsExclusive-take_token caller token here =
      let (won, s) = cas_token 0 token c.slot in
      if_elim IsExclusive won
        (λ taken.
          IsExclusive-outside c (record { slot = s; phase = update c.phase caller (noted token) })
            caller (noted token) x (ground arith) refl refl (ground arith))
        λ lost.
          if_elim IsExclusive
            ((claim_token_kind token == claim_code receive)
              && (claim_token_kind c.slot.claim_token == claim_code send))
            (λ sender.
              IsExclusive-moved caller (blocked token c.slot.claim_token) (ground (arith, here))
                refl)
            λ other. x

  IsExclusive-see_state :
      (caller token observed : ℕ)
      → c.phase caller ≡ blocked token observed
      → IsExclusive (see_state caller token observed c)
  unfolding see_state
  IsExclusive-see_state caller token observed here =
      if_elim IsExclusive (is_in_transfer c.slot.state)
        (λ there. IsExclusive-moved caller (seen token observed) (ground (arith, here)) refl)
        λ gone. IsExclusive-moved caller outside (ground (arith, here)) refl

  IsExclusive-take_over_token :
      (caller token observed : ℕ)
      → c.phase caller ≡ seen token observed
      → IsExclusive (take_over_token caller token observed c)
  unfolding take_over_token
  IsExclusive-take_over_token caller token observed here =
      let (won, s) = cas_token observed token c.slot in
      if_elim IsExclusive won
        (λ taken.
          IsExclusive-outside c (record { slot = s; phase = update c.phase caller (noted token) })
            caller (noted token) x (ground (arith, here)) refl refl (ground arith))
        λ lost. IsExclusive-moved caller outside (ground (arith, here)) refl

  IsExclusive-take_state :
      (caller token : ℕ) (expected : SlotState)
      → c.phase caller ≡ noted token
      → is_claiming expected ≡ false
      → IsExclusive (take_state caller token expected c)
  unfolding take_state
  IsExclusive-take_state caller token expected here other =
      let (won, s) = cas_state expected claiming c.slot in
      if_elim IsExclusive won
        (λ entered.
          IsExclusive-entered c
            (record { slot = s; phase = update c.phase caller (claiming_slot token) }) caller
            (claiming_slot token) x (ground arith) refl refl (ground arith))
        λ lost. IsExclusive-moved caller (withdrawing token) (ground (arith, here)) refl

  IsExclusive-Step : (d : Callers) → Step c d → IsExclusive d
  unfolding publish_state drop_token
  IsExclusive-Step d (takes_token caller token here) = IsExclusive-take_token caller token here
  IsExclusive-Step d (sees_state caller token observed here) =
      IsExclusive-see_state caller token observed here
  IsExclusive-Step d (takes_over caller token observed here) =
      IsExclusive-take_over_token caller token observed here
  IsExclusive-Step d (takes_state caller token expected here other) =
      IsExclusive-take_state caller token expected here other
  IsExclusive-Step d (works caller token s here same kept) = record {
    state = λ a inside. ground (arith, x.state a inside, same);
    one_only = x.one_only;
    someone = λ busy. x.someone (ground (arith, same));
  }
  IsExclusive-Step d (publishes caller token target here other) =
      IsExclusive-left c (publish_state caller token target c) caller (published token) x
        (ground arith) refl refl other
  IsExclusive-Step d (drops caller token here) =
      IsExclusive-outside c (drop_token caller token c) caller outside x (ground arith) refl refl
        refl
  IsExclusive-Step d (withdraws caller token here) =
      IsExclusive-outside c (drop_token caller token c) caller outside x (ground arith) refl refl
        refl

-- From a slot that is not in CLAIMING and callers that are all outside, whatever accesses the
-- callers interleave: at most one caller is in CLAIMING, and the state is CLAIMING exactly while one
-- is. Of the callers that have stored a claim token of another kind than a send's and not yet
-- cleared it there is at most one, and the slot has its token all that time.
pub Steps-IsExclusive :
    (c d : Callers)
    → ((a : ℕ) → c.phase a ≡ outside)
    → is_claiming c.slot.state ≡ false
    → Steps c d
    → IsExclusive d × IsTokened d
Steps-IsExclusive c d all_outside idle at_start = (
  record {
    state = λ a inside. ground (arith, all_outside a, inside);
    one_only = λ a b ia ib. ground (arith, all_outside a, ia);
    someone = λ busy. absurd (ground (arith, busy, idle));
  },
  record {
    token = λ a firm. absurd (ground (arith, all_outside a, firm, nothing_firm));
    one_only = λ a b fa fb. absurd (ground (arith, all_outside a, fa, nothing_firm));
    senders = λ a. ground (arith, all_outside a);
  },
)
Steps-IsExclusive c d all_outside idle (then_step {m} earlier step) =
    let (x, y) = Steps-IsExclusive c m all_outside idle earlier in
    (IsExclusive-Step m x d step, IsTokened-Step m y d step)
