-- ===== src/Value.antt =====
-- Go's `interface{}` as the program fills it: decoded YAML and JSON, numbers, compiled regular
-- expressions. A `map[string]interface{}` is its entries in the order of a `range` over it.
pub mod Laws
use Prim.Native.Nat.{max}
use honeydipper.Common.{
  ℕ, zero, suc, ◌+◌, ◌-◌, ◌*◌, ◌/◌, ◌%◌, ◌^◌, Bool, true, false, Option, none, some, List, [], ◌∷◌,
  String, ltb, leb, ◌==◌, if◌then◌else◌, str_eq, not, ◌≡◌, refl,
}
use honeydipper.Common.Int.{ℤ, pos, negsuc, neg}

mutual
  pub data Value : Type 0 where
    null : Value
    bool : Bool → Value
    int int64 : ℤ → Value
    -- a float64 by the 64 bits of its IEEE 754 form
    float : ℕ → Value
    str : String → Value
    -- a *regexp.Regexp by its pattern
    regex : String → Value
    list : Items → Value
    obj : Fields → Value

  pub data Fields : Type 0 where
    field : String → Value → Fields → Fields
    end : Fields

  pub data Items : Type 0 where
    cons : Value → Items → Items
    nil : Items

-- value, ok := table[key]
unfoldable pub get : String → Fields → Option Value
get key end = none
get key (field name value fs) = if str_eq name key then some value else get key fs

-- table[key] = value
unfoldable pub put : String → Value → Fields → Fields
put key value end = field key value end
put key value (field name old fs) =
    if str_eq name key then field name value fs else field name old (put key value fs)

-- delete(table, key)
unfoldable pub remove : String → Fields → Fields
remove key end = end
remove key (field name old fs) =
    let others = remove key fs in if str_eq name key then others else field name old others

abbrev pub keys : Fields → List String
keys end = []
keys (field k v fs) = k ∷ keys fs

abbrev pub values : Fields → List Value
values end = []
values (field k v fs) = v ∷ values fs

abbrev pub item_count : Items → ℕ
item_count nil = 0
item_count (cons x xs) = suc (item_count xs)

abbrev pub field_count : Fields → ℕ
field_count end = 0
field_count (field k v fs) = suc (field_count fs)

abbrev pub item_at : ℕ → Items → Option Value
item_at i nil = none
item_at zero (cons x xs) = some x
item_at (suc i) (cons x xs) = item_at i xs

abbrev pub append_items : Items → Items → Items
append_items nil ys = ys
append_items (cons x xs) ys = cons x (append_items xs ys)

abbrev pub to_list : Items → List Value
to_list nil = []
to_list (cons x xs) = x ∷ to_list xs

-- The list of interface values that holds these texts.
abbrev pub of_strings : List String → Items
of_strings [] = nil
of_strings (s ∷ ss) = cons (str s) (of_strings ss)

-- v == nil
abbrev pub is_null : Value → Bool
is_null null = true
is_null _ = false

-- How deep maps stand directly in maps.
unfoldable mutual
  pub depth : Value → ℕ
  depth null = 0
  depth (bool b) = 0
  depth (int n) = 0
  depth (int64 n) = 0
  depth (float b) = 0
  depth (str s) = 0
  depth (regex s) = 0
  depth (list xs) = 0
  depth (obj fs) = suc (depth_fields fs)

  pub depth_fields : Fields → ℕ
  depth_fields end = 0
  depth_fields (field k v fs) = max (depth v) (depth_fields fs)

-- f != 0: every bit pattern but those of the two zeros.
abbrev pub is_nonzero_float : ℕ → Bool
is_nonzero_float b = not (b % 2 ^ 63 == 0)

-- The part of a float64 before the point.
abbrev magnitude : ℕ → ℕ
magnitude b =
    let e = b / 2 ^ 52 % 2 ^ 11 in
    if ltb e 1023 then 0 else (2 ^ 52 + b % 2 ^ 52) * 2 ^ (e - 1023) / 2 ^ 52

-- int(f): towards zero; what does not fit becomes the least int, as on amd64.
unfoldable pub trunc : ℕ → ℤ
trunc b =
    if leb (2 ^ 63) (magnitude b)
    then negsuc (2 ^ 63 - 1)
    else if leb (2 ^ 63) b
    then neg (magnitude b)
    else pos (magnitude b)

trunc_examples :
    (trunc 0x4059000000000000 ≡ pos 100)
    × (trunc 0xbff8000000000000 ≡ negsuc 0)
    × (trunc 0x3fe0000000000000 ≡ pos 0)
unfolding trunc
trunc_examples = (refl, refl, refl)
