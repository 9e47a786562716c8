-- ===== src/Tests/Interleavings.antt =====
-- Two callers at an owned slot: the first takes the token, the second is refused it, and the first
-- enters CLAIMING.
use z_ipc.Protocol.Interleaving.{
  takes_state, takes_token, at_start, then_step, outside, Steps, take_state, take_token, Callers,
}
use z_ipc.Protocol.Interleaving.Exclusion.{is_inside, Steps-IsExclusive, IsExclusive}
use z_ipc.Protocol.Interleaving.Tokens.{IsTokened}
use z_ipc.Tests.{slot_owned}
use z_ipc.Base.{true, ◌≡◌, refl}
use z_ipc.Status.{owned}
use z_ipc.Handle.{claim_token_kind}

abbrev at_rest : Callers
at_rest = record { slot = slot_owned; phase = λ caller. outside }

abbrev entered : Callers
entered = take_state 1 260 owned (take_token 2 516 (take_token 1 260 at_rest))

steps : Steps at_rest entered
unfolding take_token claim_token_kind
steps =
    then_step (then_step (then_step at_start (takes_token 1 260 refl)) (takes_token 2 516 refl))
      (takes_state 1 260 owned refl refl)

Steps-IsExclusive_example : IsExclusive entered × IsTokened entered
Steps-IsExclusive_example = Steps-IsExclusive at_rest entered (λ a. refl) refl steps

entered_inside : is_inside (entered.phase 1) ≡ true
unfolding take_token take_state claim_token_kind
entered_inside = refl
