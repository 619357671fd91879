-- ===== src/Workflow/Handler.antt =====
-- Methods of a session: they change the session and the store, and may panic. What was changed
-- before a panic stays changed.
use honeydipper.Common.{◌≡◌, refl, Bool, true, false, [], ◌∷◌, ◌++◌}
use honeydipper.Outcome.{Outcome, done, panic, Fault, out_of_fuel}
use honeydipper.Workflow.Types.{Session, Store, State, Effect}

abbrev pub Handler : Type 0 → Type 0
Handler A = State → Outcome A × State

-- The rest of a block, after an outcome.
abbrev pub proceed : {A B : Type 0} → Outcome A → (A → Handler B) → Handler B
proceed (done a) f s = f a s
proceed (panic e) f s = (panic e, s)

infixl 5 ◌>>=◌ ◌>>◌
abbrev pub ◌>>=◌ : {A B : Type 0} → Handler A → (A → Handler B) → Handler B
◌>>=◌ m f s = let (r, s') = m s in proceed r f s'

abbrev pub ◌>>◌ : {B : Type 0} → Handler (Unit {0}) → Handler B → Handler B
m >> k = m >>= λ _. k

module _ {A : Type 0} where
  abbrev pub pure : A → Handler A
  pure a s = (done a, s)

  abbrev pub raise : Fault → Handler A
  raise e s = (panic e, s)

  abbrev pub lift : Outcome A → Handler A
  lift r s = (r, s)

  abbrev pub gets : (State → A) → Handler A
  gets f s = (done (f s), s)

abbrev pub self : Handler Session
self = gets (λ s. s.self)

abbrev pub update : (Session → Session) → Handler (Unit {0})
update f s = (done tt, record s { self = f s.self })

abbrev pub update_store : (Store → Store) → Handler (Unit {0})
update_store f s = (done tt, record s { store = f s.store })

abbrev pub perform : Effect → Handler (Unit {0})
perform e = update_store (λ t. record t { effects = t.effects ++ e ∷ [] })

abbrev pub skip : Handler (Unit {0})
skip = pure tt

abbrev pub when : Bool → Handler (Unit {0}) → Handler (Unit {0})
when true m = m
when false m = skip

module _ {A : Type 0} where
  abbrev pub recovered : Outcome A → (Fault → Handler A) → Handler A
  recovered (done a) f s = (done a, s)
  recovered (panic e) f s = f e s

  -- A deferred function that recovers from a panic, and may look at the reason.
  abbrev pub recover : Handler A → (Fault → Handler A) → Handler A
  recover m f s = let (r, s') = m s in recovered r f s'

  abbrev pub rescued : Outcome A → (Fault → Handler A) → Handler A
  rescued (done a) f s = (done a, s)
  rescued (panic out_of_fuel) f s = (panic out_of_fuel, s)
  rescued (panic e) f s = f e s

  -- The same around what may run out of fuel, which is no panic.
  abbrev pub rescue : Handler A → (Fault → Handler A) → Handler A
  rescue m f s = let (r, s') = m s in rescued r f s'

-- Running a block whose first part is known.
module _ {A : Type 0} where
  pub seq-done :
      {B : Type 0} (m : Handler A) (f : A → Handler B) (s t : State) (a : A)
      → m s ≡ (done a, t)
      → (m >>= f) s ≡ f a t
  seq-done m f s t a e = rw e refl

  pub rescue-done :
      (m : Handler A) (f : Fault → Handler A) (s t : State) (a : A)
      → m s ≡ (done a, t)
      → rescue m f s ≡ (done a, t)
  rescue-done m f s t a e = rw e refl
