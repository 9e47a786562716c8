-- ===== src/Protocol/Interleaving/Tokens.antt =====
-- Theorems on the interleaved accesses to the claim token of a slot.
use z_ipc.Base.{◌∙◌, refl, if_elim, arith, update, ◌≡◌, ◌==◌, ℕ, Bool, true, false, not, ◌&&◌}
use z_ipc.Protocol.Interleaving.{
  Step, withdraws, drops, publishes, works, takes_state, takes_over, sees_state, takes_token,
  publish_state, take_state, take_over_token, see_state, move_to, drop_token, take_token, outside,
  blocked, seen, published, claiming_slot, noted, withdrawing, Callers, Phase,
}
use z_ipc.Handle.{receive, send, claim_code, claim_token_kind}
use z_ipc.State.{cas_state, cas_token}
use z_ipc.Status.{claiming, SlotState, is_in_transfer}

-- The token that a caller has stored and not yet cleared, or 0.
abbrev pub held : Phase → ℕ
held outside = 0
held (blocked token observed) = 0
held (seen token observed) = 0
held (noted token) = token
held (withdrawing token) = token
held (claiming_slot token) = token
held (published token) = token

-- The token of a claim that is not a send's.
unfoldable pub is_firm : ℕ → Bool
is_firm token = not (token == 0) && not (claim_token_kind token == claim_code send)

-- What a receiver saw was the token of a sender.
abbrev saw_sender : Phase → Bool
saw_sender (blocked token observed) = claim_token_kind observed == claim_code send
saw_sender (seen token observed) = claim_token_kind observed == claim_code send
saw_sender _ = true

pub record IsTokened (c : Callers) : Type 0 where
  pub token : (a : ℕ) → is_firm (held (c.phase a)) ≡ true → c.slot.claim_token ≡ held (c.phase a)
  pub one_only :
      (a b : ℕ) → is_firm (held (c.phase a)) ≡ true → is_firm (held (c.phase b)) ≡ true → a ≡ b
  pub senders : (a : ℕ) → saw_sender (c.phase a) ≡ true

-- A caller that moves and holds what it held, or nothing.
IsTokened-moved :
    (c d : Callers) (caller : ℕ) (phase : Phase)
    → IsTokened c
    → (is_firm (held phase) ≡ true → held phase ≡ held (c.phase caller))
    → saw_sender phase ≡ true
    → d.phase ≡ update c.phase caller phase
    → d.slot.claim_token ≡ c.slot.claim_token
    → IsTokened d
IsTokened-moved c d caller phase x kept saw moved same = record {
  token = λ a firm. ground (arith, x.token a, kept, moved, same, firm);
  one_only = λ a b fa fb.
      x.one_only a b (ground (arith, kept, moved, fa)) (ground (arith, kept, moved, fb));
  senders = λ a. ground (arith, x.senders a, saw, moved);
}

-- A caller that stores its token over one that no other caller relies on.
IsTokened-stored :
    (c d : Callers) (caller token : ℕ)
    → IsTokened c
    → is_firm c.slot.claim_token ≡ false
    → d.phase ≡ update c.phase caller (noted token)
    → d.slot.claim_token ≡ token
    → IsTokened d
IsTokened-stored c d caller token x soft moved same = record {
  token = λ a firm. ground (arith, x.token a, soft, moved, same, firm);
  one_only = λ a b fa fb. ground (arith, x.token a, x.token b, soft, moved, fa, fb);
  senders = λ a. ground (arith, x.senders a, moved);
}

pub nothing_firm : is_firm 0 ≡ false
unfolding is_firm
nothing_firm = refl

-- A caller that clears its token, if it is still there.
IsTokened-cleared :
    (c : Callers) (caller token : ℕ)
    → IsTokened c
    → held (c.phase caller) ≡ token
    → IsTokened (drop_token caller token c)
unfolding drop_token
IsTokened-cleared c caller token x mine = record {
  token = λ a firm. ground (arith, x.token a, x.one_only a caller, mine, firm, nothing_firm);
  one_only = λ a b fa fb.
      x.one_only a b (ground (arith, fa, nothing_firm)) (ground (arith, fb, nothing_firm));
  senders = λ a. ground (arith, x.senders a);
}

module _ (c : Callers) (x : IsTokened c) where
  IsTokened-take_token :
      (caller token : ℕ) → c.phase caller ≡ outside → IsTokened (take_token caller token c)
  unfolding take_token is_firm
  IsTokened-take_token caller token here =
      let (won, s) = cas_token 0 token c.slot in
      if_elim IsTokened won
        (λ taken.
          IsTokened-stored c (record { slot = s; phase = update c.phase caller (noted token) })
            caller token x (ground arith) refl (ground arith))
        λ lost.
          if_elim IsTokened
            ((claim_token_kind token == claim_code receive)
              && (claim_token_kind c.slot.claim_token == claim_code send))
            (λ sender.
              IsTokened-moved c (move_to caller (blocked token c.slot.claim_token) c) caller
                (blocked token c.slot.claim_token) x (λ firm. absurd cc) (ground (arith, sender))
                refl refl)
            λ other. x

  IsTokened-outside : (caller : ℕ) → IsTokened (move_to caller outside c)
  IsTokened-outside caller =
      IsTokened-moved c (move_to caller outside c) caller outside x
        (λ firm. absurd (ground (arith, firm, nothing_firm))) refl refl refl

  IsTokened-see_state :
      (caller token observed : ℕ)
      → c.phase caller ≡ blocked token observed
      → IsTokened (see_state caller token observed c)
  unfolding see_state
  IsTokened-see_state caller token observed here =
      if_elim IsTokened (is_in_transfer c.slot.state)
        (λ there.
          IsTokened-moved c (move_to caller (seen token observed) c) caller (seen token observed) x
            (λ firm. absurd (ground (arith, firm, nothing_firm)))
            (ground (arith, x.senders caller, here)) refl refl)
        λ gone. IsTokened-outside caller

  IsTokened-take_over_token :
      (caller token observed : ℕ)
      → c.phase caller ≡ seen token observed
      → IsTokened (take_over_token caller token observed c)
  unfolding take_over_token is_firm
  IsTokened-take_over_token caller token observed here =
      let (won, s) = cas_token observed token c.slot in
      if_elim IsTokened won
        (λ taken.
          IsTokened-stored c (record { slot = s; phase = update c.phase caller (noted token) })
            caller token x (ground (arith, x.senders caller, here, taken)) refl
            (ground (arith, taken)))
        λ lost. IsTokened-outside caller

  IsTokened-take_state :
      (caller token : ℕ) (expected : SlotState)
      → c.phase caller ≡ noted token
      → IsTokened (take_state caller token expected c)
  unfolding take_state
  IsTokened-take_state caller token expected here =
      let (won, s) = cas_state expected claiming c.slot in
      if_elim IsTokened won
        (λ entered.
          IsTokened-moved c
            (record { slot = s; phase = update c.phase caller (claiming_slot token) }) caller
            (claiming_slot token) x (λ firm. ground (arith, here)) refl refl (ground arith))
        λ lost.
          IsTokened-moved c (move_to caller (withdrawing token) c) caller (withdrawing token) x
            (λ firm. ground (arith, here)) refl refl refl

  pub IsTokened-Step : (d : Callers) → Step c d → IsTokened d
  unfolding publish_state
  IsTokened-Step d (takes_token caller token here) = IsTokened-take_token caller token here
  IsTokened-Step d (sees_state caller token observed here) =
      IsTokened-see_state caller token observed here
  IsTokened-Step d (takes_over caller token observed here) =
      IsTokened-take_over_token caller token observed here
  IsTokened-Step d (takes_state caller token expected here other) =
      IsTokened-take_state caller token expected here
  IsTokened-Step d (works caller token s here same kept) = record {
    token = λ a firm. kept ∙ x.token a firm;
    one_only = x.one_only;
    senders = x.senders;
  }
  IsTokened-Step d (publishes caller token target here other) =
      IsTokened-moved c (publish_state caller token target c) caller (published token) x
        (λ firm. ground (arith, here)) refl refl refl
  IsTokened-Step d (drops caller token here) =
      IsTokened-cleared c caller token x (ground (arith, here))
  IsTokened-Step d (withdraws caller token here) =
      IsTokened-cleared c caller token x (ground (arith, here))
