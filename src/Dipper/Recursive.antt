-- ===== src/Dipper/Recursive.antt =====
-- pkg/dipper/mapUtils.go: Recursive and RecursiveWithPrefix, on maps and slices as they are decoded
-- from YAML and JSON. Each leaf may be replaced where it stands. A compiled regular expression is a
-- pointer to a struct whose fields cannot be set, so it stays.
use Prim.Native.String.{◌++◌}
use honeydipper.Common.{ℕ, suc, Bool, true, false, ◌&&◌, not, String, if◌then◌else◌}
use honeydipper.Outcome.{Outcome, done, panic, ◌>>=◌, reflect_misuse}
use honeydipper.Text.{is_empty}
use honeydipper.Text.Number.{itoa}
use honeydipper.Value.{
  Value, null, bool, int, int64, float, str, regex, list, obj, Items, nil, cons, Fields, end, field,
}

-- newPrefixes
unfoldable pub join : String → String → String
join prefixes key =
    if not (is_empty prefixes) && not (is_empty key) then prefixes ++ "." ++ key else key

-- What becomes of a place: it keeps its value, whose parts may have changed, or gets a new one.
pub data Visited : Type 0 where
  same set : Value → Visited

unfoldable pub decided : Value → Value × Bool → Visited
decided old (new, true) = set new
decided old (new, false) = same old

-- SetMapIndex with nil removes the key.
abbrev place_field : String → Visited → Fields → Fields
place_field k (same v) fs = field k v fs
place_field k (set null) fs = fs
place_field k (set v) fs = field k v fs

-- An element of a slice cannot be set to the invalid value.
abbrev pub place_item : Visited → Items → Outcome Items
place_item (same v) xs = done (cons v xs)
place_item (set null) xs = panic reflect_misuse
place_item (set v) xs = done (cons v xs)

-- An ItemProcessor: the path and the leaf, and the new value with whether it is to be used.
module _ (process : String → Value → Outcome (Value × Bool)) where
  unfoldable pub leaf : String → Value → Outcome Visited
  leaf path v = do r ← process path v; done (decided v r)

  unfoldable mutual
    unfolding leaf decided join itoa

    pub visit : String → Value → Outcome Visited
    visit path (obj fs) = do gs ← visit_fields path fs; done (same (obj gs))
    visit path (list xs) = do ys ← visit_items path 0 xs; done (same (list ys))
    visit path (regex p) = done (same (regex p))
    visit path null = leaf path null
    visit path (bool b) = leaf path (bool b)
    visit path (int n) = leaf path (int n)
    visit path (int64 n) = leaf path (int64 n)
    visit path (float b) = leaf path (float b)
    visit path (str s) = leaf path (str s)

    pub visit_fields : String → Fields → Outcome Fields
    visit_fields path end = done end
    visit_fields path (field k v fs) = do
      r ← visit (join path k) v
      gs ← visit_fields path fs
      done (place_field k r gs)

    pub visit_items : String → ℕ → Items → Outcome Items
    visit_items path i nil = done nil
    visit_items path i (cons v xs) = do
      r ← visit (join path (itoa i)) v
      ys ← visit_items path (suc i) xs
      place_item r ys

  -- Recursive: a value that is no container has no parent to be set in.
  unfoldable pub recursive : Value → Outcome Value
  recursive (obj fs) = do gs ← visit_fields "" fs; done (obj gs)
  recursive (list xs) = do ys ← visit_items "" 0 xs; done (list ys)
  recursive v = done v
