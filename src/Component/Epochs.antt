-- ===== src/Component/Epochs.antt =====
-- Theorems on sequences of lifecycle calls, by any number of runtimes.
use z_ipc.Base.{ℕ, ◌+◌, ◌≤◌, ◌<◌, ◌≡◌, arith}
use native.Mathlib.Nat.{le_trans}
use z_ipc.Status.{ok}
use z_ipc.Handle.{component_lifecycle_make, component_lifecycle_epoch}
use z_ipc.State.{World}
use z_ipc.Platform.{Platform}
use z_ipc.Component.{
  component_epoch_recovering, lifecycle_of, component_register, component_heartbeat,
  component_unregister, component_restart_begin, component_restart_finish, Restart,
}
use z_ipc.Component.Laws.{IsWord}

module _ (p : Platform) where
  -- One call, with any arguments and any result.
  pub data Call (w : World) : World → Type 0 where
    register : (component : ℕ) → Call w (component_register p w component).2
    heartbeat : (component epoch : ℕ) → Call w (component_heartbeat p w component epoch).1
    unregister : (component epoch : ℕ) → Call w (component_unregister w component epoch).1
    begin :
        (component epoch : ℕ) (restart : Restart)
        → Call w (component_restart_begin p w component epoch restart).2
    finish : (restart : Restart) → Call w (component_restart_finish p w restart).2

  pub data Calls (w : World) : World → Type 0 where
    none_made : Calls w w
    one_more : {v u : World} → Calls w v → Call v u → Calls w u

  abbrev epoch_of : World → ℕ → ℕ
  epoch_of w component = component_lifecycle_epoch (lifecycle_of w.pool component)

  -- The lifecycle stays a word, and its epoch does not fall.
  pub record Advances (w w' : World) (c : ℕ) : Type 0 where
    pub word : IsWord w' c
    pub grows : epoch_of w c ≤ epoch_of w' c

  module _ (c : ℕ) where
    register-Advances :
        (w : World) (component : ℕ) → IsWord w c → Advances w (component_register p w component).2 c
    unfolding component_register component_lifecycle_make component_lifecycle_epoch
    register-Advances w component small = ground arith

    heartbeat-Advances :
        (w : World) (component epoch : ℕ)
        → IsWord w c
        → Advances w (component_heartbeat p w component epoch).1 c
    unfolding component_heartbeat component_lifecycle_make component_lifecycle_epoch
    heartbeat-Advances w component epoch small = ground arith

    unregister-Advances :
        (w : World) (component epoch : ℕ)
        → IsWord w c
        → Advances w (component_unregister w component epoch).1 c
    unfolding component_unregister component_lifecycle_make component_lifecycle_epoch
    unregister-Advances w component epoch small = ground arith

    begin-Advances :
        (w : World) (component epoch : ℕ) (restart : Restart)
        → IsWord w c
        → Advances w (component_restart_begin p w component epoch restart).2 c
    unfolding component_restart_begin component_lifecycle_make component_lifecycle_epoch
    begin-Advances w component epoch restart small = ground arith

    finish-Advances :
        (w : World) (restart : Restart)
        → IsWord w c
        → Advances w (component_restart_finish p w restart).2 c
    unfolding component_restart_finish component_epoch_recovering component_lifecycle_make
        component_lifecycle_epoch
    finish-Advances w restart small = ground arith

  Call-Advances : (w w' : World) (c : ℕ) → Call w w' → IsWord w c → Advances w w' c
  Call-Advances w w' c (register component) small = register-Advances c w component small
  Call-Advances w w' c (heartbeat component epoch) small =
      heartbeat-Advances c w component epoch small
  Call-Advances w w' c (unregister component epoch) small =
      unregister-Advances c w component epoch small
  Call-Advances w w' c (begin component epoch restart) small =
      begin-Advances c w component epoch restart small
  Call-Advances w w' c (finish restart) small = finish-Advances c w restart small

  Calls-advance : (w w' : World) (c : ℕ) → Calls w w' → IsWord w c → Advances w w' c
  Calls-advance w w' c none_made small = record { word = small; grows = omega arith }
  Calls-advance w w' c (one_more {v} earlier call) small =
      let before = Calls-advance w v c earlier small in
      let after = Call-Advances v w' c call before.word in
      record { word = after.word; grows = le_trans before.grows after.grows }

  register_result :
      (w w' : World) (component epoch : ℕ)
      → IsWord w component
      → component_register p w component ≡ (ok, epoch, w')
      → IsWord w' component × (epoch_of w' component ≡ epoch) × (epoch ≡ epoch_of w component + 1)
  unfolding component_register component_lifecycle_make component_lifecycle_epoch
  register_result w w' component epoch small h = (ground arith, ground arith, ground arith)

  -- Two registrations of a component whose lifecycle is a 64-bit word, with any calls of the
  -- lifecycle between them, return different epochs, the later one the larger.
  pub component_register_fresh :
      (w w1 w2 w3 : World) (component first second : ℕ)
      → IsWord w component
      → component_register p w component ≡ (ok, first, w1)
      → Calls w1 w2
      → component_register p w2 component ≡ (ok, second, w3)
      → first < second
  component_register_fresh w w1 w2 w3 component first second small h calls k =
      let registered = register_result w w1 component first small h in
      let later = Calls-advance w1 w2 component calls registered.0 in
      omega (arith, register_result w2 w3 component second later.word k)
