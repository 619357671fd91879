-- ===== src/Service/Drivers.antt =====
-- internal/driver and what internal/service/service.go keeps of a driver: its runtime, with the data
-- it was given, its state, and how it is set up from the configuration.
use honeydipper.Common.{
  ℕ, zero, suc, Bool, true, false, ◌||◌, Option, none, some, List, [], ◌∷◌, ◌++◌, String, str_eq,
  if◌then◌else◌,
}
use honeydipper.Text.{is_empty}
use honeydipper.Text.Search.{contains}
use honeydipper.Outcome.{Outcome, done, panic, ◌>>=◌, workflow_error}
use honeydipper.Value.{Value, str, list, Items, nil, cons, Fields, get}

-- DriverLoading, DriverReloading, DriverAlive, DriverFailed, DriverStopped
pub data State : Type 0 where
  loading reloading alive crashed stopped : State

abbrev pub is_crashed : State → Bool
is_crashed crashed = true
is_crashed _ = false

abbrev pub is_stopped : State → Bool
is_stopped stopped = true
is_stopped _ = false

-- runtime.State < DriverAlive
abbrev pub before_alive : State → Bool
before_alive loading = true
before_alive reloading = true
before_alive _ = false

-- Meta
pub record Meta : Type 0 where
  pub name : String
  pub kind : String
  pub executable : String
  pub arguments : List String
  pub handler_data : Fields

-- Runtime: the address tells one runtime from another. The handler is known by its Meta.
pub record Runtime : Type 0 where
  pub address : ℕ
  pub feature : String
  pub content : Value
  pub dynamic : Value
  pub details : Meta
  pub state : State

abbrev pub with_state : State → Runtime → Runtime
with_state s r = record r { state = s }

-- d.meta.HandlerData["shortName"].(string)
short_name : Option Value → Outcome String
short_name (some (str s)) = if is_empty s || contains s "/" then panic workflow_error else done s
short_name _ = panic workflow_error

-- fmt.Sprintf("%+v", v), filepath.Join with the directory of the builtin drivers, and
-- mapstructure.Decode are parameters.
module _ (show : Value → String) (join : String → String) (decode : Value → Option Meta) where
  -- BuiltinDriver.Acquire
  unfoldable pub acquire : Meta → Outcome Meta
  unfolding short_name
  acquire m = do
    s ← short_name (get "shortName" m.handler_data)
    done (record m { executable = join s })

  shown : Items → List String
  shown nil = []
  shown (cons v vs) = show v ∷ shown vs

  argument_list : Option Value → Outcome Items
  argument_list none = done nil
  argument_list (some (list xs)) = done xs
  argument_list (some v) = panic workflow_error

  -- BuiltinDriver.Prepare
  unfoldable pub prepare : Meta → Outcome Meta
  unfolding shown argument_list
  prepare m = do
    args ← argument_list (get "arguments" m.handler_data)
    done (record m { arguments = m.arguments ++ shown args })

  -- The handler of the driver's type: a null driver does nothing in Acquire and Prepare.
  set_up : Meta → Outcome Meta
  set_up m =
      if is_empty m.name
      then panic workflow_error
      else if str_eq m.kind "builtin"
      then (acquire m >>= prepare)
      else if str_eq m.kind "null"
      then done m
      else panic workflow_error

  decoded : Option Meta → Outcome Meta
  decoded none = panic workflow_error
  decoded (some m) = done m

  -- NewDriver: metaData is asserted to be a map by its caller.
  unfoldable pub new_driver : ℕ → String → Value → Value → Value → Outcome Runtime
  unfolding set_up decoded
  new_driver address feature meta content dynamic = do
    m ← decoded (decode meta)
    ready ← set_up m
    done (record {
      address = address;
      feature = feature;
      content = content;
      dynamic = dynamic;
      details = ready;
      state = loading;
    })

abbrev alive_or_panic : State → Outcome (Unit {0})
alive_or_panic alive = done tt
alive_or_panic _ = panic workflow_error

-- Ready: it looks at the state once a second, `patience` times at most before the last look; the
-- state at each look is a parameter.
unfoldable pub ready : ℕ → ℕ → (ℕ → State) → Outcome (Unit {0})
ready zero n seen = alive_or_panic (seen n)
ready (suc patience) n seen =
    let later = ready patience (suc n) seen in
    if before_alive (seen n) then later else alive_or_panic (seen n)
