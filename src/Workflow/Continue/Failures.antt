-- ===== src/Workflow/Continue/Failures.antt =====
-- The failures that a parallel iteration keeps.
use honeydipper.Common.{
  true, Bool, ◌&&◌, not, Option, none, some, List, [], ◌∷◌, String, str_eq, if◌then◌else◌, ◌≡◌,
  refl, ◌∙◌, Bool-cases, inl, inr, eq_iff,
}
use honeydipper.Common.Assoc.{lookup-insert}
use honeydipper.Text.{is_empty}
use honeydipper.Workflow.Types.{Session, Message, Env, status, label}
use honeydipper.Workflow.Continue.{keep_first}
use honeydipper.Workflow.Complete.{final_message, with_performing, surfaced}

abbrev pub is_success : Message → Bool
is_success msg = str_eq (status msg) "success"

-- The status of the first message that is not a success.
abbrev pub first_status : List Message → String
first_status [] = "success"
first_status (msg ∷ msgs) =
    let rest = first_status msgs in if is_success msg then rest else status msg

module _ (env : Env) where
  -- What is kept of the messages of the items, one after the other.
  abbrev pub first_of : Option Message → List Message → Option Message
  first_of o [] = o
  first_of o (msg ∷ msgs) = first_of (keep_first env o msg) msgs

  status_of : Option Message → String
  status_of none = "success"
  status_of (some m) = status m

  first_of-some : (m : Message) (msgs : List Message) → first_of (some m) msgs ≡ some m
  first_of-some m [] = refl
  first_of-some m (msg ∷ msgs) = first_of-some m msgs

  status-first_of : (msgs : List Message) → status_of (first_of none msgs) ≡ first_status msgs
  unfolding status_of
  status-first_of [] = refl
  status-first_of (msg ∷ msgs) = elim (Bool-cases (is_success msg)) [
    | inl e ↦ rw e (status-first_of msgs)
    | inr e ↦ rw (e, first_of-some msg msgs) refl
  ]

  status-with_performing :
      (what : String) (msg : Message) → status (with_performing what msg) ≡ status msg
  status-with_performing what msg =
      elim (Bool-cases (not (is_success msg) && is_empty (label "performing" msg))) [
        | inl e ↦ rw (e, lookup-insert) refl
        | inr e ↦ rw e refl
      ]

  status-surfaced :
      (o : Option Message) (msg : Message)
      → status (surfaced o msg) ≡ (if is_success msg then status_of o else status msg)
  unfolding status_of
  status-surfaced none msg = elim (Bool-cases (is_success msg)) [
    | inl e ↦ rw e ((eq_iff (status msg) "success").0 e)
    | inr e ↦ rw e refl
  ]
  status-surfaced (some m) msg = elim (Bool-cases (is_success msg)) [
    | inl e ↦ rw e refl
    | inr e ↦ rw e refl
  ]

  kept_success :
      (o : Option Message) (msg : Message) → is_success msg ≡ true → keep_first env o msg ≡ o
  kept_success none msg e = rw e refl
  kept_success (some m) msg e = refl

  -- The last message is kept like the others, and surfaces what is kept.
  pub status-final_message :
      (msgs : List Message) (msg : Message) (w : Session)
      → w.iteration_out ≡ keep_first env (first_of none msgs) msg
      → status (final_message w msg) ≡ (if is_success msg then first_status msgs else status msg)
  unfolding final_message status_of
  status-final_message msgs msg w e =
      status-with_performing w.performing (surfaced w.iteration_out msg)
      ∙ rw e (
          status-surfaced (keep_first env (first_of none msgs) msg) msg
          ∙ elim (Bool-cases (is_success msg)) [
            | inl g ↦ rw (g, kept_success (first_of none msgs) msg g) (status-first_of msgs)
            | inr g ↦ rw g refl
          ])
