-- ===== src/Dipper/Condition/Negation.antt =====
-- The negated keys of a map criterion: `key!` against `key`, `:absent:` against `:present:`, and
-- `:except:`.
use honeydipper.Common.{
  str_ne, code, ℕ, Char, ◌≡◌, ◌≢◌, refl, Bool, false, some, String, ◌==◌, arith,
}
use honeydipper.Outcome.{Outcome}
use honeydipper.Text.{last_code}
use honeydipper.Text.Suffix.{snoc, last_code-snoc, drop_last-snoc}
use honeydipper.Value.{Value, Fields}
use honeydipper.Dipper.Condition.{get, negate, check_key, default_check, member_check}

-- A key that names an entry of the map: not empty, not one of the reserved words, no `!` at the end.
pub record IsMember (key : String) : Type 0 where
  pub auth : key ≢ ":auth:"
  pub present : key ≢ ":present:"
  pub absent : key ≢ ":absent:"
  pub except : key ≢ ":except:"
  pub last : (c : ℕ) × (last_code key ≡ some c) × ((c == b'!') ≡ false)

check_member :
    (key : String) (sub : Value → Outcome Bool) (actual : Fields)
    → IsMember key
    → check_key key sub actual ≡ member_check sub (get key actual)
unfolding check_key
check_member key sub actual m =
    rw
      (
        str_ne key ":auth:" m.auth,
        str_ne key ":present:" m.present,
        str_ne key ":absent:" m.absent,
        str_ne key ":except:" m.except,
      )
      (let (c, e, f) = m.last in rw (e, f, default_check))

snoc-ne : (s t : String) (c : Char) → last_code t ≢ some (code c) → snoc s c ≢ t
snoc-ne s t c h e = h (rw (← e) (last_code-snoc s c))

check_negated :
    (key : String) (sub : Value → Outcome Bool) (actual : Fields)
    → check_key (snoc key "!") sub actual ≡ negate (member_check sub (get key actual))
unfolding check_key
check_negated key sub actual =
    rw
      (
        str_ne (snoc key "!") ":auth:" (snoc-ne key ":auth:" "!" (ground arith)),
        str_ne (snoc key "!") ":present:" (snoc-ne key ":present:" "!" (ground arith)),
        str_ne (snoc key "!") ":absent:" (snoc-ne key ":absent:" "!" (ground arith)),
        str_ne (snoc key "!") ":except:" (snoc-ne key ":except:" "!" (ground arith)),
      )
      (rw (last_code-snoc key "!", default_check) (rw drop_last-snoc))

absent_present :
    (sub : Value → Outcome Bool) (actual : Fields)
    → check_key ":absent:" sub actual ≡ negate (check_key ":present:" sub actual)
unfolding check_key
absent_present sub actual = refl

-- In the criterion of a map, `key!` accepts exactly what `key` does not, whatever the criterion
-- under it: the outcomes are each other's negation, and the same panic if there is one. `key` is any
-- name of an entry that is not reserved. `:absent:` is the negation of `:present:` in the same way.
pub check_key-negation :
    (key : String) (sub : Value → Outcome Bool) (actual : Fields)
    → IsMember key
    → (check_key (snoc key "!") sub actual ≡ negate (check_key key sub actual))
      × (check_key ":absent:" sub actual ≡ negate (check_key ":present:" sub actual))
check_key-negation key sub actual m =
    (rw (check_member key sub actual m) (check_negated key sub actual), absent_present sub actual)
