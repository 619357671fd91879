-- ===== src/Workflow/Store/Queries.antt =====
-- The two queries on the sessions that events have started.
use honeydipper.Common.{
  Bool, ◌&&◌, List, [], ◌∷◌, String, str_eq, ◌≡◌, refl, ap, Bool-cases, inl, inr,
}
use honeydipper.Text.{is_empty}
use honeydipper.Workflow.Types.{Session, Store}
use honeydipper.Workflow.Store.{by_event_id, get_events, keep, all_sessions}

keep-keep :
    (p q : Session → Bool) (ws : List Session) → keep (λ w. p w && q w) ws ≡ keep q (keep p ws)
keep-keep p q [] = refl
keep-keep p q (w ∷ ws) = elim (Bool-cases (p w)) [
  | inr e ↦ rw e (keep-keep p q ws)
  | inl e ↦ elim (Bool-cases (q w)) [
    | inl f ↦ rw (e, f) (ap (λ us. w ∷ us) (keep-keep p q ws))
    | inr f ↦ rw (e, f) (keep-keep p q ws)
  ]
]

-- ByEventID gives the sessions of GetEvents with that event ID, in the same order.
pub by_event_id-eq :
    (event_id : String) (t : Store)
    → by_event_id event_id t ≡ keep (λ w. str_eq w.event_id event_id) (get_events t)
by_event_id-eq event_id t =
    keep-keep (λ w. is_empty w.parent) (λ w. str_eq w.event_id event_id)
      (all_sessions t.sessions.entries t.heap)
