-- ===== src/Dipper/Rpc/Steps.antt =====
-- Every step of a caller keeps its ID map in agreement with the history.
use mathlib.Core.Option.{some-injective}
use honeydipper.Common.{
  none, some, ◌∷◌, String, ◌≡◌, refl, sym, ◌∙◌, ap, subst, str_eq, eq_iff, eq_refl, str_ne, differ,
  if◌then◌else◌, Bool-cases, Option-cases, inl, inr, ◌≢◌, arith,
}
use honeydipper.Common.Assoc.{read, lookup, insert, lookup-insert}
use honeydipper.Dipper.IdMap.{IdMap, id_map_get, id_map_del, id_map_put}
use honeydipper.Dipper.IdMap.Fresh.{Stored, id_map_put-Stored, id_map_get-del}
use honeydipper.Dipper.Rpc.{
  Mail, Result, Place, Caller, open_call, close_call, result_of, deliver, handle_return,
}
use honeydipper.Dipper.Rpc.Machine.{
  began, returned, World, Action, call, mail, receive, give_up, act, call_step, mail_step,
  receive_step, give_up_step, end_call, initial, Reach, here, there,
}
use honeydipper.Dipper.Rpc.Pending.{
  Holds, pending, since, filled, pending-began, pending-ended, pending-returned,
}

none≢some {ℓ} : {A : Type ℓ} {a : A} → none ≢ some a
none≢some e = cc

-- A test of two IDs, at the same ID and at another.
at_id {ℓ} :
    {A : Type ℓ} (id j : String) (f same other : String → A)
    → f id ≡ same id
    → (id ≢ j → f j ≡ other j)
    → f j ≡ (if str_eq id j then same j else other j)
at_id id j f same other h k = elim (Bool-cases (str_eq id j)) [
  | inl e ↦ rw e (subst (λ i. f i ≡ same i) ((eq_iff id j).0 e) h)
  | inr e ↦ rw e (k (differ id j e))
]

opened : World → String → IdMap Place → World
opened w id m = record {
  caller = record (w.caller) { results = m };
  history = began id ∷ w.history;
}

opened-Holds :
    (w : World) (id : String) (m : IdMap Place)
    → Stored none (w.caller).results id m
    → Holds w
    → Holds (opened w id m)
unfolding opened
opened-Holds w id m st ok = record {
  valid = record { in_range = st.counter };
  agrees = λ j.
      at_id id j (λ k. id_map_get k m) (λ _. some none) (λ k. pending k w.history) st.found
        (λ ne. st.others j ne ∙ ok.agrees j)
      ∙ sym (pending-began id j w.history);
}

closed-Holds : (id : String) (w : World) → Holds w → Holds (end_call id w)
unfolding end_call close_call id_map_del
closed-Holds id w ok = record {
  valid = record { in_range = (ok.valid).in_range };
  agrees = λ j.
      id_map_get-del id j (w.caller).results
      ∙ ap (λ o. if str_eq id j then none else o) (ok.agrees j)
      ∙ sym (pending-ended id j w.history);
}

heard : World → Caller → String → Result → World
heard w c id r = record { caller = c; history = returned id r ∷ w.history }

unmoved-Holds :
    (w : World) (id : String) (r : Result)
    → filled r (id_map_get id (w.caller).results) ≡ id_map_get id (w.caller).results
    → Holds w
    → Holds (heard w w.caller id r)
unfolding heard
unmoved-Holds w id r e ok = record {
  valid = ok.valid;
  agrees = λ j.
      at_id id j (λ k. id_map_get k (w.caller).results) (λ k. filled r (pending k w.history))
        (λ k. pending k w.history) (sym e ∙ ap (filled r) (ok.agrees id)) (λ _. ok.agrees j)
      ∙ sym (pending-returned id j r w.history);
}

abbrev pub put_result : String → Result → Caller → Caller
put_result id r c = record c {
  results = record (c.results) { entries = insert id (some r) (c.results).entries };
}

filled-Holds :
    (w : World) (id : String) (r : Result)
    → id_map_get id (w.caller).results ≡ some none
    → Holds w
    → Holds (heard w (put_result id r w.caller) id r)
unfolding heard id_map_get
filled-Holds w id r e ok = record {
  valid = record { in_range = (ok.valid).in_range };
  agrees = λ j.
      at_id id j (λ k. lookup k (insert id (some r) ((w.caller).results).entries))
        (λ k. filled r (pending k w.history)) (λ k. pending k w.history)
        (rw (lookup-insert, eq_refl) (ap (filled r) (sym e ∙ ok.agrees id)))
        (λ ne. rw (lookup-insert, str_ne id j ne) (ok.agrees j))
      ∙ sym (pending-returned id j r w.history);
}

call-Holds : (w v : World) → act call w ≡ some v → Holds w → Holds v
unfolding act call_step open_call opened
call-Holds w v e ok = elim (Option-cases (id_map_put none (w.caller).results)) [
  | inl ((id, m), p) ↦
      subst Holds (some-injective _ _ (rw (p, act, open_call) at e))
        (opened-Holds w id m (id_map_put-Stored none (w.caller).results ok.valid p) ok)
  | inr p ↦ absurd (none≢some (rw (p, act, open_call) at e))
]

mail-Holds : (w v : World) (m : Mail) → act (mail m) w ≡ some v → Holds w → Holds v
unfolding act mail_step handle_return deliver heard
mail-Holds w v m e ok =
    elim (Option-cases (id_map_get (read "rpcID" m.labels) (w.caller).results)) [
      | inr p ↦
          subst Holds (some-injective _ _ (rw (p, act) at e))
            (unmoved-Holds w (read "rpcID" m.labels) (result_of m) (rw p refl) ok)
      | inl (some old, p) ↦
          subst Holds (some-injective _ _ (rw (p, act) at e))
            (unmoved-Holds w (read "rpcID" m.labels) (result_of m) (rw p refl) ok)
      | inl (none, p) ↦
          subst Holds (some-injective _ _ (rw (p, act) at e))
            (filled-Holds w (read "rpcID" m.labels) (result_of m) p ok)
    ]

receive-Holds : (w v : World) (id : String) → act (receive id) w ≡ some v → Holds w → Holds v
unfolding act receive_step
receive-Holds w v id e ok = elim (Option-cases (id_map_get id (w.caller).results)) [
  | inr p ↦ absurd (none≢some (rw (p, act) at e))
  | inl (none, p) ↦ absurd (none≢some (rw (p, act) at e))
  | inl (some r, p) ↦ subst Holds (some-injective _ _ (rw (p, act) at e)) (closed-Holds id w ok)
]

give_up-Holds : (w v : World) (id : String) → act (give_up id) w ≡ some v → Holds w → Holds v
unfolding act give_up_step
give_up-Holds w v id e ok = elim (Option-cases (id_map_get id (w.caller).results)) [
  | inr p ↦ absurd (none≢some (rw (p, act) at e))
  | inl (r, p) ↦ subst Holds (some-injective _ _ (rw (p, act) at e)) (closed-Holds id w ok)
]

act-Holds : (a : Action) (w v : World) → act a w ≡ some v → Holds w → Holds v
act-Holds call w v e ok = call-Holds w v e ok
act-Holds (mail m) w v e ok = mail-Holds w v m e ok
act-Holds (receive id) w v e ok = receive-Holds w v id e ok
act-Holds (give_up id) w v e ok = give_up-Holds w v id e ok

initial-Holds : (channel subject : String) → Holds (initial channel subject)
unfolding id_map_get lookup pending since
initial-Holds channel subject = record {
  valid = record { in_range = omega arith };
  agrees = λ j. refl;
}

-- In every state that a caller reaches, the ID map holds a channel under an ID exactly when a call
-- is open under it, and the channel holds the first return for the ID that came since that call
-- began. So a return reaches no call when none is open under its ID, or as a second one; an ID that
-- is used again takes the first return since then, whichever call that was meant for.
pub Reach-Holds :
    (channel subject : String) (w : World) → Reach (initial channel subject) w → Holds w
Reach-Holds channel subject w here = initial-Holds channel subject
Reach-Holds channel subject w (there {w = u} a r e) =
    act-Holds a u w e (Reach-Holds channel subject u r)
