-- ===== src/Drivers/Webhook/Emitted.antt =====
-- When the webhook driver emits an event.
use honeydipper.Common.{
  differ, subst, ℕ, Bool, true, false, Option, none, some, String, ◌≡◌, ◌≢◌, refl, sym, ◌∙◌, ap,
  ◌⊎◌, inl, inr, str_eq, Bool-cases,
}
use mathlib.Core.Option.{some-injective}
use honeydipper.Outcome.{Outcome, done, panic, ◌>>=◌, >>=-eq-done, done_injective}
use honeydipper.Value.{Value, list, obj, Items, nil, cons, Fields, field, end}
use honeydipper.Dipper.Condition.{compare_all}
use honeydipper.Dipper.MapData.{get_map_data_str, get_map_data}
use honeydipper.Dipper.Message.{Bytes}
use honeydipper.Drivers.Webhook.{str, WebRequest, EventData, extract_web_request}
use honeydipper.Drivers.Webhook.Signature.{verify_systems}
use honeydipper.Drivers.Webhook.Handler.{
  Hooks, Answer, event_payload, condition, match_rules, unless_matched, match_hooks, respond,
  customized, by_template, standard, recovered, after_match, verified_event, extracted,
  hook_handler, as_items, as_map,
}

as_map-obj : (v : Value) (fs : Fields) → as_map (some v) ≡ done fs → v ≡ obj fs
unfolding as_map
as_map-obj (obj gs) fs h = ap obj (done_injective h)
as_map-obj _ fs h = cc

as_items-list : (v : Value) (vs : Items) → as_items v ≡ done vs → v ≡ list vs
as_items-list (list ws) vs h = ap list (done_injective h)
as_items-list _ vs h = cc

module _ (re_match : String → String → Bool) (event : Value) (rule : Fields) where
  -- The rule stands among these, and its condition accepts the event.
  abbrev pub AmongRules : Items → Type 0
  AmongRules nil = ⊥
  AmongRules (cons v vs) =
      ((v ≡ obj rule)
        × (compare_all re_match (condition (get_map_data v "match")) event ≡ done true))
      ⊎ AmongRules vs

  abbrev pub Among : Fields → Type 0
  Among end = ⊥
  Among (field name v hooks) = ((vs : Items) × (v ≡ list vs) × AmongRules vs) ⊎ Among hooks

  picked-AmongRules :
      (v : Value) (vs : Items) (b : Bool)
      → compare_all re_match (condition (get_map_data v "match")) event ≡ done b
      → (match_rules re_match event vs ≡ done (some rule) → AmongRules vs)
      → elim b [
        | true ↦ (as_map (some v) >>= λ found. done (some found))
        | false ↦ match_rules re_match event vs
      ]
        ≡ done (some rule)
      → AmongRules (cons v vs)
  picked-AmongRules v vs true c rec h =
      let (found, m, e) = >>=-eq-done (as_map (some v)) _ h in
      inl (as_map-obj v rule (m ∙ ap done (some-injective _ _ (done_injective e))), c)
  picked-AmongRules v vs false c rec h = inr (rec h)

  match_rules-AmongRules :
      (vs : Items) → match_rules re_match event vs ≡ done (some rule) → AmongRules vs
  unfolding match_rules
  match_rules-AmongRules nil h = cc
  match_rules-AmongRules (cons v vs) h =
      let (b, c, h') =
        >>=-eq-done (compare_all re_match (condition (get_map_data v "match")) event) _ h in
      picked-AmongRules v vs b c (match_rules-AmongRules vs) h'

  found-Among :
      (name : String) (vs : Items) (hooks : Fields) (found : Option Fields)
      → match_rules re_match event vs ≡ done found
      → (match_hooks re_match event hooks ≡ done (some rule) → Among hooks)
      → unless_matched found (match_hooks re_match event hooks) ≡ done (some rule)
      → Among (field name (list vs) hooks)
  unfolding unless_matched
  found-Among name vs hooks (some r) m rec h = inl (vs, refl, match_rules-AmongRules vs (m ∙ h))
  found-Among name vs hooks none m rec h = inr (rec h)

  match_hooks-Among :
      (hooks : Fields) → match_hooks re_match event hooks ≡ done (some rule) → Among hooks
  unfolding match_hooks
  match_hooks-Among end h = cc
  match_hooks-Among (field name v hooks) h =
      let (vs, a, h') = >>=-eq-done (as_items v) _ h in
      let (found, m, h'') = >>=-eq-done (match_rules re_match event vs) _ h' in
      subst (λ w. Among (field name w hooks)) (sym (as_items-list v vs a))
        (found-Among name vs hooks found m (match_hooks-Among hooks) h'')

none≢some {ℓ} : {A : Type ℓ} {a : A} → none ≢ some a
none≢some e = cc

module _ (interpolate_str : String → Fields → Outcome String) (event_id : String) where
  Emits : EventData → Outcome Answer → Type 0
  Emits e (done a) = a.emitted ≡ some (event_payload e)
  Emits e (panic f) = Unit

  customized-Emits :
      (rule : Fields) (e : EventData) (template : String) (o : Outcome String) (ctype : String)
      → Emits e (
          o >>= λ text. done (record {
            code = 200;
            content_type = ctype;
            text = text;
            emitted = some (event_payload e);
          }))
  unfolding Emits
  customized-Emits rule e template (done text) ctype = refl
  customized-Emits rule e template (panic f) ctype = tt

  standard-Emits :
      (o : Option Value) (e : EventData)
      → (standard interpolate_str event_id o e).emitted ≡ some (event_payload e)
  unfolding standard
  standard-Emits (some (str s)) e = refl
  standard-Emits _ e = refl

  by_template-Emits :
      (rule : Fields) (template : String) (e : EventData)
      → Emits e (by_template interpolate_str event_id rule template e)
  unfolding by_template customized Emits
  by_template-Emits rule String.[] e =
      standard-Emits (get_map_data (obj e.content) "form.accept_uuid.0") e
  by_template-Emits rule (String.◌∷◌ c s) e =
      customized-Emits rule e (String.◌∷◌ c s)
        (interpolate_str (String.◌∷◌ c s) (field "event" (obj e.content) end)) _

  respond-Emits :
      (rule : Fields) (e : EventData) → Emits e (respond interpolate_str event_id rule e)
  unfolding respond
  respond-Emits rule e =
      by_template-Emits rule (get_map_data_str (obj rule) "parameters.response_payload").0 e

  recovered-Emits :
      (e : EventData) (o : Outcome Answer)
      → Emits e o
      → (recovered interpolate_str event_id e o).emitted ≡ some (event_payload e)
  unfolding recovered Emits
  recovered-Emits e (done a) h = h
  recovered-Emits e (panic f) h = refl

  after_match-emitted :
      (e : EventData) (o : Outcome (Option Fields)) (p : Fields)
      → (after_match interpolate_str event_id e o).emitted ≡ some p
      → (rule : Fields) × (o ≡ done (some rule)) × (p ≡ event_payload e)
  unfolding after_match
  after_match-emitted e (panic f) p h = cc
  after_match-emitted e (done none) p h = cc
  after_match-emitted e (done (some rule)) p h = (
    rule,
    refl,
    some-injective _ _ (
        sym h ∙ recovered-Emits e (respond interpolate_str event_id rule e) (respond-Emits rule e)),
  )

  module _ (re_match : String → String → Bool) (mac : Bytes → Bytes → Bytes)
      (bytes : String → Bytes) (unmarshal : Bytes → Option Fields) (now : ℕ) (h : Hooks) where
    verified_event-emitted :
        (o : Outcome EventData) (p : Fields)
        → (verified_event interpolate_str event_id re_match mac bytes unmarshal now h o).emitted
          ≡ some p
        → (e : EventData) × (o ≡ done e)
          × (rule : Fields) × (match_hooks re_match (obj e.content) h.hooks ≡ done (some rule))
          × (p ≡ event_payload e)
    unfolding verified_event
    verified_event-emitted (panic f) p q = cc
    verified_event-emitted (done e) p q =
        let (rule, m, made) =
          after_match-emitted e (match_hooks re_match (obj e.content) h.hooks) p q in
        (e, refl, rule, m, made)

    extracted-emitted :
        (o : Outcome EventData) (p : Fields)
        → (extracted interpolate_str event_id re_match mac bytes unmarshal now h o).emitted ≡ some p
        → (e : EventData) × (o ≡ done e)
          × (str_eq e.address "/hz/alive" ≡ false)
          × ((verified_event interpolate_str event_id re_match mac bytes unmarshal now h
                (verify_systems mac bytes now h.systems e)).emitted
              ≡ some p)
    unfolding extracted
    extracted-emitted (panic f) p q = cc
    extracted-emitted (done e) p q = elim (Bool-cases (str_eq e.address "/hz/alive")) [
      | inl t ↦ absurd (none≢some (rw (t, extracted) at q))
      | inr t ↦ (e, refl, t, rw (t, extracted) at q)
    ]

    abbrev pub Accepted : WebRequest → Fields → Type 0
    Accepted r p =
        (e : EventData) × (e' : EventData) × (rule : Fields) × (extract_web_request unmarshal r
          ≡ done e)
        × (e.address ≢ "/hz/alive")
        × (verify_systems mac bytes now h.systems e ≡ done e')
        × Among re_match (obj e'.content) rule h.hooks
        × (p ≡ event_payload e')

    -- An event is emitted only for a request whose data can be extracted, which is not the probe of
    -- the driver's health, and for which no check of a signature panics; a hook's condition accepts
    -- the data with the verified systems, and the payload of the event is these data, whatever the
    -- response is.
    pub hook_handler-emitted :
        (r : WebRequest) (p : Fields)
        → (hook_handler interpolate_str event_id re_match mac bytes unmarshal now h r).emitted
          ≡ some p
        → (e : EventData) × (e' : EventData) × (rule : Fields) × (extract_web_request unmarshal r
            ≡ done e)
          × (e.address ≢ "/hz/alive")
          × (verify_systems mac bytes now h.systems e ≡ done e')
          × Among re_match (obj e'.content) rule h.hooks
          × (p ≡ event_payload e')
    unfolding hook_handler
    hook_handler-emitted r p q =
        let (e, x, other, q') = extracted-emitted (extract_web_request unmarshal r) p q in
        let (e', v, rule, m, made) =
          verified_event-emitted (verify_systems mac bytes now h.systems e) p q' in
        (
          e,
          e',
          rule,
          x,
          differ e.address "/hz/alive" other,
          v,
          match_hooks-Among re_match (obj e'.content) rule h.hooks m,
          made,
        )
