-- ===== src/Config/Extended.antt =====
-- What the systems are when all of them are extended, told without the order of the work.
use honeydipper.Common.{
  ◌≡◌, refl, ◌∙◌, ap, true, false, Option, none, some, List, [], ◌∷◌, String, All, Bool-cases, inl,
  inr, str_eq, if◌then◌else◌,
}
use honeydipper.Common.Assoc.{Assoc, lookup, insert, has, lookup-insert}
use honeydipper.Outcome.{Sound, Outcome, done, panic, ◌>>=◌, Safe, Safe-bind}
use honeydipper.Value.{Fields}
use honeydipper.Config.{Trigger, Function, System}
use honeydipper.Text.{is_empty}
use honeydipper.Config.Collapse.{no_system, or_system}
use honeydipper.Config.Systems.{
  completed_function, completed_trigger, merge_entry, must, merge_entries, parse_extend, Extending,
  merge_system, join_base, add_base,
}

abbrev pub base_of : String → String
base_of extend = (parse_extend extend).1

-- The entry of a system in the configuration.
abbrev pub current : Assoc System → String → System
current original name = or_system (lookup name original)

-- A base is the same in two maps of systems.
abbrev pub Same : Assoc System → Assoc System → String → Type 0
Same s t x = lookup (base_of x) s ≡ lookup (base_of x) t

-- A panic is one of the program's, and a value comes with the equation that gives it.
pub Safe-eq : {A : Type 0} (m : Outcome A) → Safe (λ _. Unit) m → Safe (λ a. m ≡ done a) m
Safe-eq (done a) h = refl
Safe-eq (panic e) h = h

pub Safe-map :
    {A : Type 0} (P Q : A → Type 0) (m : Outcome A) → ((a : A) → P a → Q a) → Safe P m → Safe Q m
Safe-map P Q (done a) f h = f a h
Safe-map P Q (panic e) f h = h

bind_same :
    {A B : Type 0} (m : Outcome A) (f g : A → Outcome B)
    → ((a : A) → f a ≡ g a)
    → (m >>= f) ≡ (m >>= g)
bind_same (done a) f g h = h a
bind_same (panic e) f g h = refl

must-Sound : {A : Type 0} (o : Option A) → Sound (must o)
must-Sound none = λ e. cc
must-Sound (some a) = tt

bind-Sound :
    {A B : Type 0} (m : Outcome A) (f : A → Outcome B)
    → Sound m
    → ((a : A) → Sound (f a))
    → Sound (m >>= f)
bind-Sound m f h k = Safe-bind (λ _. Unit) (λ _. Unit) m f h (λ a _. k a)

merge_entry-Sound :
    {T : Type 0} (f : T → T → Option T) (g : T → T → T) (name : String) (t : T) (d : Assoc T)
    (o : Option T)
    → Sound (merge_entry f g name t d o)
unfolding merge_entry
merge_entry-Sound f g name t d none = tt
merge_entry-Sound f g name t d (some exist) =
    bind-Sound (must (f exist t)) (λ m. done (insert name (g t m) d)) (must-Sound (f exist t))
      (λ m. tt)

merge_entries-Sound :
    {T : Type 0} (f : T → T → Option T) (g : T → T → T) (ts d : Assoc T)
    → Sound (merge_entries f g ts d)
unfolding merge_entries
merge_entries-Sound f g [] d = tt
merge_entries-Sound f g ((name, t) ∷ ts) d =
    bind-Sound (merge_entry f g name t d (lookup name d)) (merge_entries f g ts)
      (merge_entry-Sound f g name t d (lookup name d)) (merge_entries-Sound f g ts)

pub has-insert :
    {V : Type 0} (key n : String) (v : V) (table : Assoc V)
    → has n (insert key v table) ≡ (if str_eq key n then true else has n table)
has-insert key n v table =
    rw lookup-insert (elim (Bool-cases (str_eq key n)) [ inl e ↦ rw e refl | inr e ↦ rw e refl ])

module _ (merge_trigger : Trigger → Trigger → Option Trigger)
    (merge_function : Function → Function → Option Function)
    (merge_content : Option Fields → Option Fields → Option (Option Fields))
    (copy : System → Option System) where
  -- The bases, as they are among the systems, onto what is merged so far.
  unfoldable pub join_bases : Assoc System → List String → System → Outcome System
  join_bases systems [] merged = done merged
  join_bases systems (x ∷ xs) merged =
      add_base merge_trigger merge_function merge_content copy systems x merged
      >>= join_bases systems xs

  module _ (original : Assoc System) where
    -- A system onto its bases.
    unfoldable pub whole : Assoc System → String → Outcome System
    whole systems name = join_bases systems (current original name).extends no_system >>= λ merged.
        merge_system merge_trigger merge_function merge_content copy merged (current original name)

    pub record Extended (e : Extending) : Type 0 where
      pub untouched :
          (n : String) → has n e.processed ≡ false → lookup n e.systems ≡ lookup n original
      pub entries :
          (n : String)
          → has n e.processed ≡ true
          → (m : System) × (lookup n e.systems ≡ some m) × (whole e.systems n ≡ done m)
      pub bases :
          (n : String)
          → has n e.processed ≡ true
          → All (λ x. has (base_of x) e.processed ≡ true) (current original n).extends

    pub merge_system-Sound :
        (d s : System) → Sound (merge_system merge_trigger merge_function merge_content copy d s)
    unfolding merge_system
    merge_system-Sound d s =
        bind-Sound (merge_entries merge_trigger completed_trigger s.triggers d.triggers) _
          (merge_entries-Sound merge_trigger completed_trigger s.triggers d.triggers)
          (λ ts.
            bind-Sound (merge_entries merge_function completed_function s.functions d.functions) _
              (merge_entries-Sound merge_function completed_function s.functions d.functions)
              (λ fs.
                bind-Sound (must (merge_content d.content s.content)) _
                  (must-Sound (merge_content d.content s.content)) (λ c. tt)))

    join_base-Sound :
        (key : String) (m base : System)
        → Sound (join_base merge_trigger merge_function merge_content copy key m base)
    unfolding join_base
    join_base-Sound key m base = elim (Bool-cases (is_empty key)) [
      | inl e ↦ rw e (merge_system-Sound m base)
      | inr e ↦ rw e tt
    ]

    pub add_base-Sound :
        (systems : Assoc System) (x : String) (m : System)
        → Sound (add_base merge_trigger merge_function merge_content copy systems x m)
    unfolding add_base
    add_base-Sound systems x m =
        bind-Sound (must (copy (or_system (lookup (base_of x) systems)))) _
          (must-Sound (copy (or_system (lookup (base_of x) systems))))
          (λ b. join_base-Sound (parse_extend x).0 m b)

    pub add_base-Same :
        (s t : Assoc System) (x : String) (m : System)
        → Same s t x
        → add_base merge_trigger merge_function merge_content copy s x m
          ≡ add_base merge_trigger merge_function merge_content copy t x m
    unfolding add_base
    add_base-Same s t x m h =
        ap
          (λ o.
            must (copy (or_system o))
            >>= join_base merge_trigger merge_function merge_content copy (parse_extend x).0 m)
          h

    join_bases-Same :
        (s t : Assoc System) (xs : List String) (m : System)
        → All (Same s t) xs
        → join_bases s xs m ≡ join_bases t xs m
    unfolding join_bases
    join_bases-Same s t [] m h = refl
    join_bases-Same s t (x ∷ xs) m h =
        ap (λ o. o >>= join_bases s xs) (add_base-Same s t x m h.0)
        ∙ bind_same (add_base merge_trigger merge_function merge_content copy t x m)
            (join_bases s xs) (join_bases t xs) (λ a. join_bases-Same s t xs a h.1)

    pub whole-Same :
        (s t : Assoc System) (n : String)
        → All (Same s t) (current original n).extends
        → whole s n ≡ whole t n
    unfolding whole
    whole-Same s t n h =
        ap
          (λ o. o >>= λ merged.
            merge_system merge_trigger merge_function merge_content copy merged
              (current original n))
          (join_bases-Same s t (current original n).extends no_system h)
