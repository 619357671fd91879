-- ===== src/Service/Loads.antt =====
-- What loading a feature leaves of the service.
use mathlib.Core.Option.{some-injective}
use honeydipper.Common.{
  ◌⊎◌, Bool, true, false, false≢true, ◌&&◌, Option, none, some, String, str_eq, ◌≡◌, ◌≢◌, refl, sym,
  ◌∙◌, ap, Bool-cases, Option-cases, inl, inr, eq_refl, str_ne, not,
}
use honeydipper.Common.Assoc.{lookup, insert, lookup-insert}
use honeydipper.Outcome.{Fault, done, workflow_error}
use honeydipper.Value.{Value, Fields}
use honeydipper.Service.Drivers.{State, crashed, is_crashed, Meta, Runtime}
use honeydipper.Service.Features.{
  Service, Loaded, set_state, check_delete, plan, load_failed, hot_reload, cold_reload, reload_old,
  keeps_running, install, load_feature, loaded, refreshed, replaced,
}

none≢some {ℓ} : {A : Type ℓ} {a : A} → none ≢ some a
none≢some e = cc

both : (a b : Bool) → (a && b) ≡ true → (a ≡ true) × (b ≡ true)
both true true h = (refl, refl)
both true false h = absurd (false≢true h)
both false b h = absurd (false≢true h)

-- `a` is `b`, or reflect.DeepEqual says that they are equal: it takes maps without an order, and 0 and
-- -0 for equal.
abbrev pub Agree : {A : Type 0} → (A → A → Bool) → A → A → Type 0
Agree equal a b = (a ≡ b) ⊎ (equal a b ≡ true)

-- The runtime holds what the fresh one was given.
pub record Holds (equal : Value → Value → Bool) (equal_meta : Meta → Meta → Bool)
    (fresh r : Runtime) : Type 0 where
  pub content : Agree equal r.content fresh.content
  pub dynamic : Agree equal r.dynamic fresh.dynamic
  pub details : Agree equal_meta r.details fresh.details

-- What a load of `fresh` as `feature` has done to `s`.
pub record Result (equal : Value → Value → Bool) (equal_meta : Meta → Meta → Bool)
    (feature : String) (s : Service) (fresh : Runtime) (r : Loaded) : Type 0 where
  pub at :
      r.error ≡ none
      → (x : Runtime) × (lookup feature (r.service).runtimes ≡ some x)
        × Holds equal equal_meta fresh x
  pub idle : r.affected ≡ false → r.error ≡ none → r.service ≡ s
  pub down :
      (e : Fault) (x : Runtime)
      → r.error ≡ some e
      → lookup feature (r.service).runtimes ≡ some x
      → x.state ≡ crashed
  pub others : (j : String) → feature ≢ j → lookup j (r.service).runtimes ≡ lookup j s.runtimes

set_state-down :
    (feature : String) (s : Service) (x : Runtime)
    → lookup feature (set_state feature crashed s).runtimes ≡ some x
    → x.state ≡ crashed
unfolding set_state
set_state-down feature s x h = elim (Option-cases (lookup feature s.runtimes)) [
  | inr e ↦ absurd (none≢some (sym e ∙ (rw (set_state, e) at h)))
  | inl (r, e) ↦
      ap (λ (y : Runtime). y.state)
        (sym (some-injective _ _ (rw (set_state, e, lookup-insert, eq_refl) at h)))
]

set_state-others :
    (feature j : String) (state : State) (s : Service)
    → feature ≢ j
    → lookup j (set_state feature state s).runtimes ≡ lookup j s.runtimes
unfolding set_state
set_state-others feature j state s ne = elim (Option-cases (lookup feature s.runtimes)) [
  | inr e ↦ rw (set_state, e) refl
  | inl (r, e) ↦ rw (set_state, e, lookup-insert, str_ne feature j ne) refl
]

-- What holds of every load of a feature that fails, with `changed` when it fails.
record Failure (feature : String) (s : Service) (r : Loaded) : Type 0 where
  down : (x : Runtime) → lookup feature (r.service).runtimes ≡ some x → x.state ≡ crashed
  others : (j : String) → feature ≢ j → lookup j (r.service).runtimes ≡ lookup j s.runtimes

module _ (starts : Meta → Bool) (sends : Meta → Bool) (equal : Value → Value → Bool)
    (equal_meta : Meta → Meta → Bool) (show : Value → String) (join : String → String)
    (decode : Value → Option Meta) (staged : Option Fields) where
  -- The same places of a map of runtimes, but for one feature.
  Same : String → Service → Service → Type 0
  Same feature changed s =
      (j : String) → feature ≢ j → lookup j changed.runtimes ≡ lookup j s.runtimes

  failed-Result :
      (feature driver : String) (affected : Bool) (e : Fault) (changed s : Service)
      (fresh : Runtime)
      → Same feature changed s
      → Result equal equal_meta feature s fresh (load_failed feature affected driver e changed)
  unfolding load_failed Same
  failed-Result feature driver affected e changed s fresh same = record {
    at = λ h. absurd (none≢some (sym h));
    idle = λ _ h. absurd (none≢some (sym h));
    down = λ _ x _ h. set_state-down feature changed x h;
    others = λ j ne. set_state-others feature j crashed changed ne ∙ same j ne;
  }

  -- A load that has put the runtime `x` in its place.
  loaded-Result :
      (feature driver : String) (changed s : Service) (fresh x : Runtime)
      → lookup feature changed.runtimes ≡ some x
      → Holds equal equal_meta fresh x
      → Same feature changed s
      → Result equal equal_meta feature s fresh (loaded driver true changed)
  unfolding loaded Same
  loaded-Result feature driver changed s fresh x found ok same = record {
    at = λ _. (x, found, ok);
    idle = λ h. absurd (false≢true (sym h));
    down = λ e y h. absurd (none≢some h);
    others = same;
  }

  put-Same :
      (feature : String) (x : Runtime) (changed s : Service)
      → changed.runtimes ≡ insert feature x s.runtimes
      → Same feature changed s
  unfolding Same
  put-Same feature x changed s e j ne = rw (e, lookup-insert, str_ne feature j ne) refl

  put-found :
      (feature : String) (x : Runtime) (changed s : Service)
      → changed.runtimes ≡ insert feature x s.runtimes
      → lookup feature changed.runtimes ≡ some x
  put-found feature x changed s e = rw (e, lookup-insert, eq_refl) refl

  placed-Result :
      (feature driver : String) (changed s : Service) (fresh x : Runtime)
      → changed.runtimes ≡ insert feature x s.runtimes
      → Holds equal equal_meta fresh x
      → Result equal equal_meta feature s fresh (loaded driver true changed)
  placed-Result feature driver changed s fresh x e ok =
      loaded-Result feature driver changed s fresh x (put-found feature x changed s e) ok
        (put-Same feature x changed s e)

  hot-Result :
      (feature driver : String) (fresh old : Runtime) (s : Service)
      → equal_meta old.details fresh.details ≡ true
      → Result equal equal_meta feature s fresh (
          hot_reload starts sends equal equal_meta show join decode staged feature driver fresh old
            s)
  unfolding hot_reload refreshed
  hot-Result feature driver fresh old s same = elim (Bool-cases (sends old.details)) [
    | inl e ↦
        rw (hot_reload, e)
          (placed-Result feature driver _ s fresh (refreshed fresh old) refl
            (record { content = inl refl; dynamic = inl refl; details = inr same }))
    | inr e ↦
        rw (hot_reload, e)
          (failed-Result feature driver true workflow_error _ s fresh
            (put-Same feature (refreshed fresh old) _ s refl))
  ]

  replaced-runtimes :
      (feature : String) (old : Option Runtime) (s : Service)
      → (replaced feature old s).runtimes ≡ s.runtimes
  unfolding replaced check_delete
  replaced-runtimes feature none s = refl
  replaced-runtimes feature (some old) s = elim (Bool-cases (str_eq feature "emitter")) [
    | inl e ↦ rw (replaced, e) refl
    | inr e ↦ rw (replaced, e) refl
  ]

  cold-Result :
      (feature driver : String) (fresh : Runtime) (old : Option Runtime) (s : Service)
      → Result equal equal_meta feature s fresh (
          cold_reload starts sends equal equal_meta show join decode staged feature driver fresh old
            s)
  unfolding cold_reload Same
  cold-Result feature driver fresh old s =
      elim (Bool-cases (starts fresh.details && sends fresh.details)) [
        | inl e ↦
            rw (cold_reload, e)
              (placed-Result feature driver _ s fresh fresh (replaced-runtimes feature old _)
                (record { content = inl refl; dynamic = inl refl; details = inl refl }))
        | inr e ↦
            rw (cold_reload, e)
              (failed-Result feature driver true workflow_error s s fresh (λ j ne. refl))
      ]

  kept-Result :
      (feature driver : String) (fresh old : Runtime) (s : Service)
      → lookup feature s.runtimes ≡ some old
      → Holds equal equal_meta fresh old
      → Result equal equal_meta feature s fresh (loaded driver false s)
  unfolding loaded
  kept-Result feature driver fresh old s found ok = record {
    at = λ _. (old, found, ok);
    idle = λ _ _. refl;
    down = λ e x h. absurd (none≢some h);
    others = λ j ne. refl;
  }

  reload-Result :
      (feature driver : String) (fresh old : Runtime) (s : Service)
      → lookup feature s.runtimes ≡ some old
      → Result equal equal_meta feature s fresh (
          reload_old starts sends equal equal_meta show join decode staged feature driver fresh old
            s)
  unfolding reload_old keeps_running
  reload-Result feature driver fresh old s found =
      elim (Bool-cases (not (is_crashed old.state) && equal_meta old.details fresh.details)) [
        | inr e ↦ rw (reload_old, e) (cold-Result feature driver fresh (some old) s)
        | inl e ↦
            let same = (both (not (is_crashed old.state)) _ e).1 in
            rw (reload_old, e)
              (elim (Bool-cases
                (equal old.content fresh.content && equal old.dynamic fresh.dynamic)) [
                  | inr d ↦ rw d (hot-Result feature driver fresh old s same)
                  | inl d ↦
                      let (content, dynamic) = both (equal old.content fresh.content) _ d in
                      rw d (
                        kept-Result feature driver fresh old s found (record {
                          content = inr content;
                          dynamic = inr dynamic;
                          details = inr same;
                        }))
                ])
      ]

  -- Loading a feature that the configuration describes: without an error the feature has a runtime
  -- with the data, the dynamic data and the Meta of the staged configuration, or with what
  -- reflect.DeepEqual takes for them, and nothing has changed when it is said not to be affected; after
  -- an error the runtime, if there is one, is marked as failed; and the other features keep theirs.
  pub load_feature-Result :
      (feature : String) (s : Service) (driver : String) (fresh : Runtime)
      → plan starts sends equal equal_meta show join decode staged s feature ≡ done (driver, fresh)
      → Result equal equal_meta feature s fresh
          (load_feature starts sends equal equal_meta show join decode staged feature s)
  unfolding load_feature install
  load_feature-Result feature s driver fresh planned =
      elim (Option-cases (lookup feature s.runtimes)) [
        | inl (old, found) ↦
            rw (load_feature, planned, found) (reload-Result feature driver fresh old s found)
        | inr new ↦ rw (load_feature, planned, new) (cold-Result feature driver fresh none s)
      ]
