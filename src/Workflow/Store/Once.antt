-- ===== src/Workflow/Store/Once.antt =====
-- A session that waits is resumed once.
use honeydipper.Common.{Option, none, some, String, ◌≡◌, refl, eq_refl, str_ne, ◌≢◌}
use honeydipper.Common.Assoc.{lookup, lookup-delete}
use honeydipper.Workflow.Types.{Store, Message}
use honeydipper.Workflow.Store.{resume, resume_with}

resume_with-none :
    (o : Option String) (token : String) (msg : Message) (t : Store)
    → lookup token t.suspended ≡ o
    → lookup token (resume_with o token msg t).suspended ≡ none
resume_with-none none token msg t h = h
resume_with-none (some id) token msg t h = rw (lookup-delete, eq_refl) refl

others :
    (o : Option String) (token : String) (msg : Message) (t : Store) (other : String)
    → token ≢ other
    → lookup other (resume_with o token msg t).suspended ≡ lookup other t.suspended
others none token msg t other h = refl
others (some id) token msg t other h = rw (lookup-delete, str_ne token other h) refl

-- Whatever resumes a token for the second time has no effect, and no other token is touched.
pub resume_once :
    (token : String) (msg again : Message) (t : Store)
    → (resume token again (resume token msg t) ≡ resume token msg t)
      × ((other : String)
          → token ≢ other
          → lookup other (resume token msg t).suspended ≡ lookup other t.suspended)
unfolding resume
resume_once token msg again t = (
  rw (resume_with-none (lookup token t.suspended) token msg t refl) refl,
  others (lookup token t.suspended) token msg t,
)
