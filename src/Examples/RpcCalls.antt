-- ===== src/Examples/RpcCalls.antt =====
-- Calls between drivers and their returns.
use mathlib.Core.Option.{Option}
use honeydipper.Common.{◌≡◌, refl, false, some, none, [], ◌∷◌, arith, String}
use honeydipper.Common.Int.{ℤ}
use honeydipper.Common.Assoc.{insert, lookup}
use honeydipper.Text.Number.{itoa, write}
use honeydipper.Outcome.{done, ◌>>=◌}
use honeydipper.Dipper.Message.{absent, Payload, Bytes, structure, serialize_content}
use honeydipper.Dipper.Message.Wire.{payload_bytes}
use honeydipper.Value.{obj, end}
use honeydipper.Dipper.IdMap.{id_map_put, id_map_get, scan, next_id}
use honeydipper.Dipper.IdMap.Fresh.{IsValid}
use honeydipper.Dipper.Rpc.{
  Mail, Caller, new_caller, open_call, raw_call, handle_return, delivered, result_of, answer_of,
  answer_bytes,
}
use honeydipper.Dipper.Rpc.Machine.{World, initial, Reach, here, there, act, call, mail}
use honeydipper.Dipper.Rpc.Pending.{Holds}
use honeydipper.Dipper.Rpc.Steps.{Reach-Holds, put_result}
use honeydipper.Dipper.Rpc.Provider.{RpcProvider, rpc_router, Handling, replies}
use honeydipper.Dipper.Rpc.Exchange.{over_wire, call_result, outcome, handle_return-rpc_router}

program : Unit {0}
unfolding open_call id_map_put scan itoa write insert lookup act handle_return id_map_get result_of
program = tt

abbrev caller : Caller
caller = new_caller "rpc" "call"

abbrev provider : RpcProvider
provider = record { channel = "rpc"; subject = "return" }

abbrev opened : Caller
opened = record {
  channel = "rpc";
  subject = "call";
  results = record { entries = ("0", none) ∷ []; counter = 1 };
}

caller-IsValid : IsValid caller.results
caller-IsValid = record { in_range = omega arith }

open_call_run : open_call caller ≡ some ("0", opened)
unfolding program next_id
open_call_run = refl

no_duration : String → Option ℤ
no_duration s = none

-- The handler replies with data, which JSON makes into two bytes.
abbrev to_json : Payload → Option Bytes
to_json p = some (b'{' ∷ b'}' ∷ [])

abbrev with_data : Handling
with_data = replies (record { labels = []; payload = structure (obj end); is_raw = false })

handle_return-rpc_router_example :
    (m : Mail) × (rpc_router no_duration provider
        (raw_call caller "locker" "lock" [] "0").labels
        with_data
      ≡ done (m ∷ []))
    × ((over_wire to_json m >>= λ r. done (handle_return r opened))
        ≡ (outcome to_json with_data >>= λ a. done (delivered (put_result "0" a opened))))
    × ((outcome to_json with_data >>= answer_of) ≡ call_result to_json with_data)
handle_return-rpc_router_example =
    handle_return-rpc_router to_json no_duration provider "locker" "lock" [] with_data caller
      caller-IsValid open_call_run

with_data_run : call_result to_json with_data ≡ done (answer_bytes (some (b'{' ∷ b'}' ∷ [])))
unfolding program call_result payload_bytes serialize_content
with_data_run = refl

abbrev return_mail : Mail
return_mail = record {
  channel = "rpc";
  subject = "return";
  labels = ("rpcID", "0") ∷ [];
  payload = absent;
  is_raw = false;
}

abbrev after_call : World
after_call = elim (act call (initial "rpc" "call")) [ some w ↦ w | none ↦ initial "rpc" "call" ]

abbrev after_return : World
after_return = elim (act (mail return_mail) after_call) [ some w ↦ w | none ↦ after_call ]

after_return-Reach : Reach (initial "rpc" "call") after_return
unfolding program next_id
after_return-Reach = there (mail return_mail) (there call here refl) refl

Reach-Holds_example : Holds after_return
Reach-Holds_example = Reach-Holds "rpc" "call" after_return after_return-Reach
