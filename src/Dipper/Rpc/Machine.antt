-- ===== src/Dipper/Rpc/Machine.antt =====
-- The calls of one caller as a state machine: calls begin, returns come in, and calls end, in any
-- order. The history is what has happened, the latest first.
use honeydipper.Common.{Option, none, some, List, [], ◌∷◌, String, ◌≡◌}
use honeydipper.Common.Assoc.{read}
use honeydipper.Dipper.IdMap.{id_map_get}
use honeydipper.Dipper.Rpc.{
  Mail, Result, Place, Caller, new_caller, open_call, close_call, result_of, Handled, ignored,
  blocked, delivered, handle_return,
}

-- What the steps leave behind: a call began under the ID, a return came for it, the call ended.
pub data Event : Type 0 where
  began : String → Event
  returned : String → Result → Event
  ended : String → Event

pub record World : Type 0 where
  pub caller : Caller
  pub history : List Event

-- CallRaw begins; HandleReturn gets a message; a call takes the result that waits in its channel;
-- a call gives up, on a timeout or because the message could not be sent.
pub data Action : Type 0 where
  call : Action
  mail : Mail → Action
  receive : String → Action
  give_up : String → Action

unfoldable pub call_step : World → Option (String × Caller) → Option World
call_step w none = none
call_step w (some (id, c)) = some (record { caller = c; history = began id ∷ w.history })

-- A send that blocks waits for the channel; when it goes through, the channel is no longer looked at.
unfoldable pub mail_step : World → Mail → Handled → Option World
mail_step w m ignored = some (record {
  caller = w.caller;
  history = returned (read "rpcID" m.labels) (result_of m) ∷ w.history;
})
mail_step w m blocked = some (record {
  caller = w.caller;
  history = returned (read "rpcID" m.labels) (result_of m) ∷ w.history;
})
mail_step w m (delivered c) =
    some
      (record { caller = c; history = returned (read "rpcID" m.labels) (result_of m) ∷ w.history })

unfoldable pub end_call : String → World → World
end_call id w = record { caller = close_call id w.caller; history = ended id ∷ w.history }

-- The receive is enabled when the channel holds a result.
unfoldable pub receive_step : String → World → Option Place → Option World
receive_step id w (some (some r)) = some (end_call id w)
receive_step id w (some none) = none
receive_step id w none = none

-- A call that has not ended may give up.
unfoldable pub give_up_step : String → World → Option Place → Option World
give_up_step id w (some place) = some (end_call id w)
give_up_step id w none = none

unfoldable pub act : Action → World → Option World
unfolding call_step mail_step receive_step give_up_step end_call
act call w = call_step w (open_call w.caller)
act (mail m) w = mail_step w m (handle_return m w.caller)
act (receive id) w = receive_step id w (id_map_get id (w.caller).results)
act (give_up id) w = give_up_step id w (id_map_get id (w.caller).results)

abbrev pub initial : String → String → World
initial channel subject = record { caller = new_caller channel subject; history = [] }

-- The states that a run reaches.
pub data Reach (start : World) : World → Type 0 where
  here : Reach start start
  there : {w v : World} (a : Action) → Reach start w → act a w ≡ some v → Reach start v
