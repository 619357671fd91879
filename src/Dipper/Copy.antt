-- ===== src/Dipper/Copy.antt =====
-- pkg/dipper/mapUtils.go: DeepCopy. A copied map is filled entry by entry.
pub mod Faithful
use honeydipper.Common.{Option, none, some, String, Bool, true, false}
use honeydipper.Outcome.{Outcome, done, panic, map_error, ◌>>=◌}
use honeydipper.Value.{
  Value, null, bool, int, int64, float, str, regex, list, obj, Items, nil, cons, Fields, end, field,
  put,
}

unfoldable mutual
  pub deep_copy : Value → Outcome Value
  deep_copy (obj fs) = do ret ← copy_fields end fs; done (obj ret)
  deep_copy (list xs) = do ret ← copy_items xs; done (list ret)
  deep_copy null = done null
  deep_copy (bool b) = done (bool b)
  deep_copy (int n) = done (int n)
  deep_copy (int64 n) = done (int64 n)
  deep_copy (float b) = done (float b)
  deep_copy (str s) = done (str s)
  deep_copy (regex s) = done (regex s)

  -- for k, val := range v { ret[k] = copy of val }
  pub copy_fields : Fields → Fields → Outcome Fields
  copy_fields ret end = done ret
  copy_fields ret (field k val fs) = do vcopy ← deep_copy val; copy_fields (put k vcopy ret) fs

  pub copy_items : Items → Outcome Items
  copy_items nil = done nil
  copy_items (cons val xs) = do vcopy ← deep_copy val; rest ← copy_items xs; done (cons vcopy rest)

abbrev as_map : Value → Outcome (Option Fields)
as_map (obj fs) = done (some fs)
as_map _ = panic map_error

-- DeepCopyMap: none is the nil map.
unfoldable pub deep_copy_map : Option Fields → Outcome (Option Fields)
unfolding deep_copy
deep_copy_map none = done none
deep_copy_map (some m) = do ret ← deep_copy (obj m); as_map ret
