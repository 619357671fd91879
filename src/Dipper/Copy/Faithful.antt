-- ===== src/Dipper/Copy/Faithful.antt =====
-- DeepCopy succeeds and copies every entry.
use honeydipper.Common.{Option, none, some, String, ◌≡◌, ◌≢◌, refl, str_ne, ap, sym}
use honeydipper.Outcome.{done}
use honeydipper.Value.{
  Value, null, bool, int, int64, float, str, regex, list, obj, Items, nil, cons, Fields, end, field,
  put,
}
use honeydipper.Value.Laws.{AllKeys}
use honeydipper.Dipper.Copy.{deep_copy, copy_fields, copy_items, deep_copy_map}

-- Each map holds a key once, at every level.
unfoldable mutual
  pub IsMap : Value → Type 0
  IsMap null = Unit
  IsMap (bool b) = Unit
  IsMap (int n) = Unit
  IsMap (int64 n) = Unit
  IsMap (float b) = Unit
  IsMap (str s) = Unit
  IsMap (regex s) = Unit
  IsMap (list xs) = IsMapItems xs
  IsMap (obj fs) = IsMapFields fs

  pub IsMapItems : Items → Type 0
  IsMapItems nil = Unit
  IsMapItems (cons x xs) = IsMap x × IsMapItems xs

  pub IsMapFields : Fields → Type 0
  IsMapFields end = Unit
  IsMapFields (field k v fs) = AllKeys (λ j. k ≢ j) fs × IsMap v × IsMapFields fs

-- The entries of two maps one after the other.
abbrev join : Fields → Fields → Fields
join end gs = gs
join (field k v fs) gs = field k v (join fs gs)

put-join :
    (k : String) (v : Value) (fs gs : Fields)
    → AllKeys (λ j. k ≢ j) fs
    → put k v fs ≡ join fs (field k v end)
unfolding put
put-join k v end gs h = refl
put-join k v (field j w fs) gs (ne, h) =
    rw (str_ne j k (λ e. ne (sym e))) (ap (field j w) (put-join k v fs gs h))

join-put :
    (k : String) (v : Value) (fs gs : Fields)
    → join (join fs (field k v end)) gs ≡ join fs (field k v gs)
join-put k v end gs = refl
join-put k v (field j w fs) gs = ap (field j w) (join-put k v fs gs)

-- Every key of the one differs from every key of the other.
abbrev Apart : Fields → Fields → Type 0
Apart ret end = Unit
Apart ret (field k v fs) = AllKeys (λ j. k ≢ j) ret × Apart ret fs

join-end : (fs : Fields) → join fs end ≡ fs
join-end end = refl
join-end (field k v fs) = ap (field k v) (join-end fs)

AllKeys-snoc :
    (P : String → Type 0) (fs : Fields) (k : String) (v : Value)
    → AllKeys P fs
    → P k
    → AllKeys P (join fs (field k v end))
AllKeys-snoc P end k v h p = (p, tt)
AllKeys-snoc P (field j w fs) k v h p = (h.0, AllKeys-snoc P fs k v h.1 p)

Apart-end : (fs : Fields) → Apart end fs
Apart-end end = tt
Apart-end (field k v fs) = (tt, Apart-end fs)

Apart-snoc :
    (ret : Fields) (k : String) (v : Value) (fs : Fields)
    → Apart ret fs
    → AllKeys (λ j. k ≢ j) fs
    → Apart (join ret (field k v end)) fs
Apart-snoc ret k v end h d = tt
Apart-snoc ret k v (field j w fs) (a, h) (ne, d) =
    (AllKeys-snoc (λ i. j ≢ i) ret k v a (λ e. ne (sym e)), Apart-snoc ret k v fs h d)

mutual
  unfolding deep_copy IsMap

  deep_copy-eq : (v : Value) → IsMap v → deep_copy v ≡ done v
  deep_copy-eq (obj fs) h = rw (copy_fields-eq fs end (Apart-end fs) h)
  deep_copy-eq (list xs) h = rw (copy_items-eq xs h)
  deep_copy-eq null h = refl
  deep_copy-eq (bool b) h = refl
  deep_copy-eq (int n) h = refl
  deep_copy-eq (int64 n) h = refl
  deep_copy-eq (float b) h = refl
  deep_copy-eq (str s) h = refl
  deep_copy-eq (regex s) h = refl

  copy_fields-eq :
      (fs ret : Fields) → Apart ret fs → IsMapFields fs → copy_fields ret fs ≡ done (join ret fs)
  copy_fields-eq end ret a h = ap done (sym (join-end ret))
  copy_fields-eq (field k v fs) ret a h = rw (deep_copy-eq v h.1) (
      rw (put-join k v ret end a.0) (
        rw (copy_fields-eq fs (join ret (field k v end)) (Apart-snoc ret k v fs a.1 h.0) h.2)
          (ap done (join-put k v ret fs))))

  copy_items-eq : (xs : Items) → IsMapItems xs → copy_items xs ≡ done xs
  copy_items-eq nil h = refl
  copy_items-eq (cons x xs) h = rw (deep_copy-eq x h.0, copy_items-eq xs h.1)

abbrev pub IsMapOption : Option Fields → Type 0
IsMapOption none = Unit
IsMapOption (some fs) = IsMap (obj fs)

-- DeepCopyMap of a map whose keys are distinct at every level, nil included, succeeds and returns an
-- equal map: no entry is lost and none changes, in nested maps and lists too.
pub deep_copy_map-eq : (m : Option Fields) → IsMapOption m → deep_copy_map m ≡ done m
unfolding deep_copy_map
deep_copy_map-eq none h = refl
deep_copy_map-eq (some fs) h = rw (deep_copy-eq (obj fs) h)
