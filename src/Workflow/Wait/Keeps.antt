-- ===== src/Workflow/Wait/Keeps.antt =====
-- A wait is resumed once, and by nobody else.
use honeydipper.Common.{
  true, false, some, String, ◌≡◌, refl, ◌≢◌, ◌∙◌, sym, Bool-cases, inl, inr, is_some, str_ne,
  false≢true, ap, subst,
}
use honeydipper.Common.Assoc.{Assoc, lookup, insert, has, lookup-insert}
use honeydipper.Outcome.{Outcome, done, panic, workflow_error}
use honeydipper.Value.{get}
use honeydipper.Workflow.Types.{Env, State, or_end, settings}
use honeydipper.Workflow.Handler.{proceed}
use honeydipper.Workflow.Calls.{as_token}
use honeydipper.Workflow.Wait.{start_wait, is_infinite, suspend, set_timer}

module _ (env : Env) where
  timer-keeps :
      (token : String) (s : State) → (set_timer env token s).1.store.suspended ≡ s.store.suspended
  timer-keeps token s = elim (Bool-cases (is_infinite (settings s.self.flow).wait)) [
    | inl e ↦ rw e refl
    | inr e ↦ elim (Bool-cases (env.is_duration (settings s.self.flow).wait)) [
      | inl d ↦ rw (e, d) refl
      | inr d ↦ rw (e, d) refl
    ]
  ]

  suspended_at : String → State → State
  suspended_at token s = record s {
    store = record s.store { suspended = insert token s.self.id s.store.suspended };
  }

  taken :
      (token : String) (s : State)
      → has token s.store.suspended ≡ true
      → suspend env token s ≡ (panic workflow_error, s)
  taken token s e = rw e refl

  free :
      (token : String) (s : State)
      → has token s.store.suspended ≡ false
      → suspend env token s ≡ set_timer env token (suspended_at token s)
  unfolding suspended_at
  free token s e = rw e refl

  fresh-ne :
      (own token : String) (m : Assoc String) {id : String}
      → has own m ≡ false
      → lookup token m ≡ some id
      → own ≢ token
  fresh-ne own token m {id} e h p =
      false≢true (sym e ∙ ap is_some (subst (λ k. lookup k m ≡ some id) (sym p) h))

  suspend-keeps :
      (own : String) (s : State) (token id : String)
      → lookup token s.store.suspended ≡ some id
      → lookup token (suspend env own s).1.store.suspended ≡ some id
  unfolding suspended_at
  suspend-keeps own s token id h = elim (Bool-cases (has own s.store.suspended)) [
    | inl e ↦ rw (taken own s e) h
    | inr e ↦
        rw
          (
            free own s e,
            timer-keeps own (suspended_at own s),
            lookup-insert,
            str_ne own token (fresh-ne own token s.store.suspended e h),
          )
          h
  ]

  proceeds :
      (r : Outcome String) (s : State) (token id : String)
      → lookup token s.store.suspended ≡ some id
      → lookup token (proceed r (suspend env) s).1.store.suspended ≡ some id
  proceeds (done own) s token id h = suspend-keeps own s token id h
  proceeds (panic e) s token id h = h

  -- Suspending a session never takes a token from another one: whatever it ends with, every token that
  -- led to a session before leads to the same session afterwards.
  pub start_wait-keeps :
      (s : State) (token id : String)
      → lookup token s.store.suspended ≡ some id
      → lookup token (start_wait env s).1.store.suspended ≡ some id
  unfolding start_wait
  start_wait-keeps s token id h =
      proceeds (as_token (get "resume_token" (or_end s.self.ctx))) s token id h
