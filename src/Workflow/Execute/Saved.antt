-- ===== src/Workflow/Execute/Saved.antt =====
-- A session that is saved is found under its new ID.
use honeydipper.Common.{◌<◌, true, ◌≡◌, refl, length, Option-cases, inl, inr}
use honeydipper.Outcome.{done}
use honeydipper.Text.{is_empty}
use honeydipper.Dipper.IdMap.{max_id, id_map_put}
use honeydipper.Dipper.IdMap.Fresh.{IsValid, Stored, id_map_put-Stored, id_map_put_total}
use honeydipper.Workflow.Types.{State}
use honeydipper.Workflow.Execute.{save}

-- What saving has done: the session is found under an ID that was free, every other session keeps its
-- own, and no more is changed.
pub record Saved (s s' : State) : Type 0 where
  pub stored : Stored s.self.address s.store.sessions s'.self.id s'.store.sessions
  pub session : s'.self ≡ record s.self { id = s'.self.id }
  pub store : s'.store ≡ record s.store { sessions = s'.store.sessions }

-- Saving a session that has no ID succeeds in a store that is not full, and gives it one.
pub save-Saved :
    (s : State)
    → IsValid s.store.sessions
    → length s.store.sessions.entries < max_id
    → is_empty s.self.id ≡ true
    → ((save s).0 ≡ done tt) × Saved s (save s).1
unfolding save
save-Saved s ok room e = elim (Option-cases (id_map_put s.self.address s.store.sessions)) [
  | inr full ↦ absurd (id_map_put_total s.self.address s.store.sessions ok room full)
  | inl ((key, m), found) ↦
      rw (e, found)
        (
          refl,
          record {
            stored = id_map_put-Stored s.self.address s.store.sessions ok found;
            session = refl;
            store = refl;
          },
        )
]
