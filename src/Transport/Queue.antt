-- ===== src/Transport/Queue.antt =====
-- What the link layer relies on in a transport: it is a queue of messages, from which a receive
-- takes the oldest in two steps.
use z_ipc.Base.{true, false, none, some, List, [], ◌∷◌, ◌++◌, ◌≡◌}
use z_ipc.Status.{Status, ok, is_ok}
use z_ipc.State.{Message}
use z_ipc.Transport.{Transport, Token}
use z_ipc.Ring.Window.{contains}

module _ {T : Type 0} (tr : Transport T) (IsSound : T → Type 0) (queue : T → List Message) where
  -- The state `t` offers `first`, and has `rest` once it is committed.
  pub record Offers (t : T) (message first : Message) (rest : List Message) : Type 0 where
    pub token : Token
    pub state : T
    pub begins : tr.receive_begin message t ≡ some (ok, first, token, state)
    pub commits : (tr.receive_commit token state).0 ≡ ok
    pub sound : IsSound (tr.receive_commit token state).2
    pub remains : queue (tr.receive_commit token state).2 ≡ rest

  -- How a receive on an empty queue ends: not at all, or with an error.
  pub data Empty (t : T) (message : Message) : Type 0 where
    waits : tr.receive_begin message t ≡ none → Empty t message
    fails :
        (status : Status) (other : Message) (token : Token) (t1 : T)
        → tr.receive_begin message t ≡ some (status, other, token, t1)
        → is_ok status ≡ false
        → IsSound t1
        → queue t1 ≡ []
        → Empty t message

  -- How a send ends: refused with nothing changed, or with the message behind the queue, unless it
  -- was in it already.
  pub data Queued (t : T) (message : Message) : Status × T → Type 0 where
    no_room :
        {status : Status} {t1 : T}
        → is_ok status ≡ false
        → IsSound t1
        → queue t1 ≡ queue t
        → Queued t message (status, t1)
    already_there :
        {t1 : T}
        → contains message (queue t) ≡ true
        → IsSound t1
        → queue t1 ≡ queue t
        → Queued t message (ok, t1)
    appended :
        {t1 : T}
        → contains message (queue t) ≡ false
        → IsSound t1
        → queue t1 ≡ queue t ++ (message ∷ [])
        → Queued t message (ok, t1)

  pub record IsQueue : Type 0 where
    pub offer :
        (t : T) (message first : Message) (rest : List Message)
        → IsSound t
        → queue t ≡ first ∷ rest
        → Offers t message first rest
    pub wait : (t : T) (message : Message) → IsSound t → queue t ≡ [] → Empty t message
    pub push : (t : T) (message : Message) → IsSound t → Queued t message (tr.send message t)
