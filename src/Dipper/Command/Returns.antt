-- ===== src/Dipper/Command/Returns.antt =====
-- What the labels of a return message say of the reply and of the call.
use honeydipper.Common.{
  true, false, Option, none, some, String, str_eq, not, ◌≡◌, ◌≢◌, refl, ◌∙◌, sym, differ,
  false≢true, Option-cases, Bool-cases, inl, inr, if◌then◌else◌, str_ne, ◌||◌, is_some, arith,
}
use honeydipper.Common.Assoc.{Assoc, lookup, insert, has, read, lookup-insert, lookup-delete}
use honeydipper.Dipper.Command.{
  success, return_labels, set_status, given_status, no_status, without_limits,
}
use honeydipper.Dipper.Command.Attempts.{is_failing, failing_status}

-- The status that the reply stands for.
abbrev pub status_from : Option String → Option String → String
status_from (some status) error = status
status_from none (some reason) = "error"
status_from none none = success

abbrev pub status_of : Assoc String → String
status_of retval = status_from (lookup "status" retval) (lookup "error" retval)

-- The keys that a return writes or deletes.
abbrev pub IsKept : String → Type 0
IsKept j = ("status" ≢ j) × ("reason" ≢ j) × ("backoff_ms" ≢ j) × ("retry" ≢ j) × ("timeout" ≢ j)

pub record ReturnsTo (retval call out : Assoc String) : Type 0 where
  pub status : lookup "status" out ≡ some (status_of retval)
  pub backoff : lookup "backoff_ms" out ≡ none
  pub retry : lookup "retry" out ≡ none
  pub timeout : lookup "timeout" out ≡ none
  pub others : (j : String) → IsKept j → lookup j out ≡ lookup j call

limits-gone :
    (call : Assoc String) (j : String)
    → lookup j (without_limits call) ≡ (
        if str_eq "timeout" j || str_eq "retry" j || str_eq "backoff_ms" j
        then none
        else lookup j call)
unfolding without_limits
limits-gone call j = rw (lookup-delete, lookup-delete, lookup-delete) (ground arith)

set_status-status :
    (o : Option String) (retval labels : Assoc String)
    → lookup "status" (set_status o retval labels) ≡ some (status_from o (lookup "error" retval))
unfolding set_status given_status no_status
set_status-status (some s) retval labels = elim (Bool-cases (str_eq s success)) [
  | inl e ↦ rw e (rw lookup-insert refl)
  | inr e ↦ rw e (rw (lookup-insert, lookup-insert) refl)
]
set_status-status none retval labels = elim (Option-cases (lookup "error" retval)) [
  | inl (reason, e) ↦ rw e (rw (lookup-insert, lookup-insert) refl)
  | inr e ↦ rw e (rw lookup-insert refl)
]

-- A write to another key.
skip : (key j v : String) (m : Assoc String) → key ≢ j → lookup j (insert key v m) ≡ lookup j m
skip key j v m h = rw (lookup-insert, str_ne key j h) refl

skip_both :
    (j v w : String) (m : Assoc String)
    → "status" ≢ j
    → "reason" ≢ j
    → lookup j (insert "reason" v (insert "status" w m)) ≡ lookup j m
skip_both j v w m s r = skip "reason" j v (insert "status" w m) r ∙ skip "status" j w m s

set_status-others :
    (o : Option String) (retval labels : Assoc String) (j : String)
    → "status" ≢ j
    → "reason" ≢ j
    → lookup j (set_status o retval labels) ≡ lookup j labels
unfolding set_status given_status no_status
set_status-others (some s) retval labels j ns nr = elim (Bool-cases (str_eq s success)) [
  | inl e ↦ rw e (skip "status" j s labels ns)
  | inr e ↦ rw e (skip_both j (read "reason" retval) s labels ns nr)
]
set_status-others none retval labels j ns nr = elim (Option-cases (lookup "error" retval)) [
  | inl (reason, e) ↦ rw e (skip_both j reason "error" labels ns nr)
  | inr e ↦ rw e (skip "status" j success labels ns)
]

kept :
    (call : Assoc String) (j : String) → IsKept j → lookup j (without_limits call) ≡ lookup j call
kept call j (s, r, b, y, t) =
    limits-gone call j
    ∙ (rw (str_ne "timeout" j t, str_ne "retry" j y, str_ne "backoff_ms" j b) refl)

gone :
    (retval call : Assoc String) (j : String)
    → "status" ≢ j
    → "reason" ≢ j
    → (str_eq "timeout" j || str_eq "retry" j || str_eq "backoff_ms" j) ≡ true
    → lookup j (return_labels retval call) ≡ none
unfolding return_labels
gone retval call j s r e =
    set_status-others (lookup "status" retval) retval (without_limits call) j s r
    ∙ limits-gone call j
    ∙ (rw e refl)

-- The labels of a return message carry the status of the reply and no limits, and every other key
-- but `reason` as the call has it.
pub return_labels-ReturnsTo :
    (retval call : Assoc String) → ReturnsTo retval call (return_labels retval call)
unfolding return_labels
return_labels-ReturnsTo retval call = record {
  status = set_status-status (lookup "status" retval) retval (without_limits call);
  backoff = gone retval call "backoff_ms" (differ _ _ refl) (differ _ _ refl) refl;
  retry = gone retval call "retry" (differ _ _ refl) (differ _ _ refl) refl;
  timeout = gone retval call "timeout" (differ _ _ refl) (differ _ _ refl) refl;
  others = λ j h.
      set_status-others (lookup "status" retval) retval (without_limits call) j h.0 h.1
      ∙ kept call j h;
}

not_failing :
    (s e : Option String)
    → (is_some e ≡ true → is_some s ≡ false)
    → (is_some e || failing_status s) ≡ not (str_eq (status_from s e) success)
not_failing (some s) none h = refl
not_failing (some s) (some e) h = absurd (false≢true (sym (h refl)))
not_failing none none h = refl
not_failing none (some e) h = refl

-- A reply that does not give both a status and an error is repeated, while retries are left, exactly
-- when the return message would carry a status other than success.
pub is_failing-status :
    (retval call : Assoc String)
    → (has "error" retval ≡ true → has "status" retval ≡ false)
    → is_failing retval ≡ not (str_eq (read "status" (return_labels retval call)) success)
unfolding is_failing
is_failing-status retval call h =
    let out = return_labels-ReturnsTo retval call in
    rw (out.status) (not_failing (lookup "status" retval) (lookup "error" retval) h)
