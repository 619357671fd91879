-- ===== src/Workflow/Predicates.antt =====
-- internal/workflow/session.go: what the workflow of a session is.
use honeydipper.Common.{ℕ, Bool, true, false, not, ◌||◌, List, [], ◌∷◌, String, ltb, if◌then◌else◌}
use honeydipper.Outcome.{Outcome, done, panic, reflect_misuse}
use honeydipper.Text.{is_empty}
use honeydipper.Value.{Value, str, list, obj, is_null, item_count, field_count}
use honeydipper.Workflow.Types.{Session, Settings, settings, steps_of, threads_of, branch_count}
use Prim.Native.String.{◌++◌ as str_append, len}

-- len(list) > 0
abbrev pub is_listed {ℓ} : {A : Type ℓ} → List A → Bool
is_listed [] = false
is_listed (x ∷ xs) = true

unfoldable pub is_loop : Settings → Bool
is_loop w =
    is_listed w.while_all
    || is_listed w.until_any
    || is_listed w.while_any
    || is_listed w.until_all
    || not (is_null w.while_match)
    || not (is_null w.until_match)

unfoldable pub is_iteration : Settings → Bool
is_iteration w = not (is_null w.iterate) || not (is_null w.iterate_parallel)

-- reflect.Value.Len, which panics on what has no length.
abbrev pub reflect_len : Value → Outcome ℕ
reflect_len (list xs) = done (item_count xs)
reflect_len (obj fs) = done (field_count fs)
reflect_len (str s) = done (len s)
reflect_len _ = panic reflect_misuse

unfoldable pub len_of_iterate : Settings → Outcome ℕ
len_of_iterate w = reflect_len (if not (is_null w.iterate) then w.iterate else w.iterate_parallel)

unfoldable pub is_function : Settings → Bool
is_function w = not (is_empty w.function.driver) || not (is_empty w.function.target_system)

abbrev branches_set : ℕ → Bool
branches_set n = ltb 0 n

-- setPerforming: the session and what it performs now.
unfoldable pub set_performing : String → Session → Session
unfolding is_iteration is_loop
set_performing given w =
    let wf = settings w.flow in
    record w {
      performing =
          if not (is_empty given)
          then given
          else if not (is_empty wf.description)
          then wf.description
          else if not (is_empty wf.function.target_system)
          then str_append wf.function.target_system (str_append "." wf.function.target_function)
          else if not (is_empty wf.function.driver)
          then str_append "driver:"
              (str_append wf.function.driver (str_append "." wf.function.raw_action))
          else if not (is_empty wf.call_function)
          then wf.call_function
          else if not (is_empty wf.call_driver)
          then wf.call_driver
          else if not (is_empty wf.call_workflow)
          then str_append "calling " wf.call_workflow
          else if is_iteration wf
          then "iterating"
          else if is_loop wf
          then "looping"
          else if branches_set (branch_count (steps_of w.flow))
          then "steps"
          else if branches_set (branch_count (threads_of w.flow))
          then "threads"
          else wf.name;
    }

-- inheritParentSettings
unfoldable pub inherit_parent_settings : Settings → Settings → Settings
inherit_parent_settings parent w = record w {
  on_error = if is_empty w.on_error then parent.on_error else w.on_error;
  on_failure = if is_empty w.on_failure then parent.on_failure else w.on_failure;
}
