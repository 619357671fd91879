-- ===== src/Dipper/Rpc/Pending.antt =====
-- What the ID map of a caller holds, told from the history alone.
use honeydipper.Common.{
  Option, none, some, List, [], ◌∷◌, String, ◌≡◌, refl, str_eq, if◌then◌else◌, Bool-cases,
  Option-cases, inl, inr,
}
use honeydipper.Dipper.IdMap.{id_map_get}
use honeydipper.Dipper.IdMap.Fresh.{IsValid}
use honeydipper.Dipper.Rpc.{Result, Place}
use honeydipper.Dipper.Rpc.Machine.{Event, began, returned, ended, World}

-- The first of the returns for the ID in a history, which has the latest event first.
or_else : Option Result → Option Result → Option Result
or_else (some r) s = some r
or_else none s = s

unfoldable pub first_return : String → List Event → Option Result
unfolding or_else
first_return id [] = none
first_return id (began j ∷ h) = first_return id h
first_return id (ended j ∷ h) = first_return id h
first_return id (returned j r ∷ h) =
    or_else (first_return id h) (if str_eq j id then some r else none)

abbrev with_event : Event → Option (List Event) → Option (List Event)
with_event e none = none
with_event e (some h) = some (e ∷ h)

-- The events since the call that is open under the ID began; none when no call is open under it.
unfoldable pub since : String → List Event → Option (List Event)
since id [] = none
since id (began j ∷ h) =
    let more = with_event (began j) (since id h) in if str_eq j id then some [] else more
since id (ended j ∷ h) =
    let more = with_event (ended j) (since id h) in if str_eq j id then none else more
since id (returned j r ∷ h) = with_event (returned j r) (since id h)

abbrev first_of : String → Option (List Event) → Option Place
first_of id none = none
first_of id (some h) = some (first_return id h)

-- The channel under the ID: an open call's, with the first return since the call began.
unfoldable pub pending : String → List Event → Option Place
pending id h = first_of id (since id h)

-- The ID map holds an open call's channel under each ID, and its counter is valid.
pub record Holds (w : World) : Type 0 where
  pub valid : IsValid (w.caller).results
  pub agrees : (j : String) → id_map_get j (w.caller).results ≡ pending j w.history

pub pending-began :
    (id j : String) (h : List Event)
    → pending j (began id ∷ h) ≡ (if str_eq id j then some none else pending j h)
unfolding pending since first_return
pending-began id j h = elim (Bool-cases (str_eq id j)) [
  | inl e ↦ rw e refl
  | inr e ↦ rw e (elim (Option-cases (since j h)) [ inl (g, s) ↦ rw s refl | inr s ↦ rw s refl ])
]

pub pending-ended :
    (id j : String) (h : List Event)
    → pending j (ended id ∷ h) ≡ (if str_eq id j then none else pending j h)
unfolding pending since first_return
pending-ended id j h = elim (Bool-cases (str_eq id j)) [
  | inl e ↦ rw e refl
  | inr e ↦ rw e (elim (Option-cases (since j h)) [ inl (g, s) ↦ rw s refl | inr s ↦ rw s refl ])
]

-- A return fills an empty channel and changes nothing else.
abbrev pub filled : Result → Option Place → Option Place
filled r (some none) = some (some r)
filled r o = o

pub pending-returned :
    (id j : String) (r : Result) (h : List Event)
    → pending j (returned id r ∷ h) ≡ (if str_eq id j then filled r (pending j h) else pending j h)
unfolding pending since first_return or_else
pending-returned id j r h = elim (Option-cases (since j h)) [
  | inr s ↦ rw s (elim (Bool-cases (str_eq id j)) [ inl e ↦ rw e refl | inr e ↦ rw e refl ])
  | inl (g, s) ↦ rw s (elim (Option-cases (first_return j g)) [
    | inl (q, f) ↦ rw f (elim (Bool-cases (str_eq id j)) [ inl e ↦ rw e refl | inr e ↦ rw e refl ])
    | inr f ↦ rw f (elim (Bool-cases (str_eq id j)) [ inl e ↦ rw e refl | inr e ↦ rw e refl ])
  ])
]
