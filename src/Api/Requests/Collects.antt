-- ===== src/Api/Requests/Collects.antt =====
-- A request that waits for several answers is ready when the last of them has come, in any order.
use honeydipper.Common.{
  ℕ, suc, ◌+◌, ◌<◌, ◌≤◌, false, none, some, List, [], ◌∷◌, String, ◌==◌, if◌then◌else◌, length, ◌≡◌,
  refl, ◌∙◌, ap, arith, Bool-cases, inl, inr, eq_refl,
}
use honeydipper.Common.Assoc.{lookup, lookup-insert}
use honeydipper.Value.{Value, Fields, end, field, get, put, field_count}
use honeydipper.Workflow.Types.{Message}
use honeydipper.Api.Requests.{
  update_at, on_request, Request, Requests, waiting, ready, handle_api_return, is_first,
  take_return, add_result, send_if_complete,
}

-- The result of one responder.
abbrev pub answer : String → String × Value → Message
answer uuid a = record {
  channel = "eventbus";
  subject = "api";
  labels = ("type", "result") ∷ ("uuid", uuid) ∷ ("from", a.0) ∷ [];
  payload = a.1;
}

abbrev pub take_all : String → List (String × Value) → Requests → Requests
take_all uuid [] l = l
take_all uuid (a ∷ answers) l = take_all uuid answers (handle_api_return (answer uuid a) l).0

-- Nobody answers twice.
abbrev pub Fresh : List (String × Value) → Fields → Type 0
Fresh [] fs = Unit
Fresh (a ∷ answers) fs = (get a.0 fs ≡ none) × Fresh answers (put a.0 a.1 fs)

abbrev pub put_all : List (String × Value) → Fields → Fields
put_all [] fs = fs
put_all (a ∷ answers) fs = put_all answers (put a.0 a.1 fs)

abbrev pub waits : Request → Request
waits r = record r { phase = waiting }

-- The request with the answers: it is ready if there are as many results as ACKs.
abbrev pub settled : List (String × Value) → Request → Request
settled answers r = record r {
  results = put_all answers r.results;
  phase = if field_count r.results + length answers == length r.acks then ready else waiting;
}

count-put :
    (k : String) (v : Value) (fs : Fields)
    → get k fs ≡ none
    → field_count (put k v fs) ≡ suc (field_count fs)
unfolding get put
count-put k v end h = refl
count-put k v (field j w fs) h = ground (arith, count-put k v fs)

found :
    (uuid : String) (a : String × Value) (l : Requests)
    → handle_api_return (answer uuid a) l
      ≡ on_request (lookup uuid l.requests) (take_return (answer uuid a)) (answer uuid a) uuid l
unfolding handle_api_return lookup
found uuid a l = refl

answered :
    (uuid : String) (a : String × Value) (r : Request) (l : Requests)
    → is_first r.req_type ≡ false
    → on_request (some (waits r)) (take_return (answer uuid a)) (answer uuid a) uuid l
      ≡ update_at uuid (send_if_complete (add_result a.0 a.1 (waits r))) l
unfolding lookup
answered uuid a r l f = rw f refl

unequal : (m n : ℕ) → m < n → (m == n) ≡ false
unequal m n lt = ground arith

shift : (m k n : ℕ) → (suc m + k == n) ≡ (m + suc k == n)
shift m k n = ground arith

fewer : (m m' k n : ℕ) → m' ≡ suc m → m + suc k ≤ n → m' + k ≤ n
fewer m m' k n e le = omega arith

same_count : (m n : ℕ) → (m + 1 == n) ≡ (suc m == n)
same_count m n = ground arith

sent :
    (a : String × Value) (r : Request)
    → get a.0 r.results ≡ none
    → (send_if_complete (add_result a.0 a.1 (waits r))).0 ≡ settled (a ∷ []) r
sent a r e = elim (Bool-cases (suc (field_count r.results) == length r.acks)) [
  | inl q ↦
      rw (count-put a.0 a.1 r.results e, same_count (field_count r.results) (length r.acks), q) refl
  | inr q ↦
      rw (count-put a.0 a.1 r.results e, same_count (field_count r.results) (length r.acks), q) refl
]

one_answer :
    (uuid : String) (a : String × Value) (r : Request) (l : Requests)
    → lookup uuid l.requests ≡ some (waits r)
    → is_first r.req_type ≡ false
    → get a.0 r.results ≡ none
    → lookup uuid (handle_api_return (answer uuid a) l).0.requests ≡ some (settled (a ∷ []) r)
one_answer uuid a r l h f e =
    rw (found uuid a l, h, answered uuid a r l f, lookup-insert, eq_refl) (ap some (sent a r e))

-- The request once an answer has come that is not the last.
with_answer : String × Value → Request → Request
with_answer a r = record r { results = put a.0 a.1 r.results }

not_last :
    (a : String × Value) (r : Request)
    → field_count r.results + 1 < length r.acks
    → settled (a ∷ []) r ≡ waits (with_answer a r)
unfolding with_answer
not_last a r lt = rw (unequal (field_count r.results + 1) (length r.acks) lt) refl

more :
    (a b : String × Value) (answers : List (String × Value)) (r : Request)
    → get a.0 r.results ≡ none
    → settled (b ∷ answers) (with_answer a r) ≡ settled (a ∷ b ∷ answers) r
unfolding with_answer
more a b answers r e =
    rw
      (
        count-put a.0 a.1 r.results e,
        shift (field_count r.results) (suc (length answers)) (length r.acks),
      )
      refl

-- A request for all responders, or for those that have a match, which waits for its results with
-- fewer results than ACKs: when responders that have not answered yet answer one after the other, in
-- any order, and no more of them than have sent an ACK, then it is ready exactly if the last ACK is
-- answered, it has the result of each of them, and it has no other change.
pub returns-settled :
    (uuid : String) (a : String × Value) (answers : List (String × Value)) (r : Request)
    (l : Requests)
    → lookup uuid l.requests ≡ some (waits r)
    → is_first r.req_type ≡ false
    → Fresh (a ∷ answers) r.results
    → field_count r.results + length (a ∷ answers) ≤ length r.acks
    → lookup uuid (take_all uuid (a ∷ answers) l).requests ≡ some (settled (a ∷ answers) r)
unfolding with_answer
returns-settled uuid a [] r l h f (e, es) le = one_answer uuid a r l h f e
returns-settled uuid a (b ∷ answers) r l h f (e, es) le =
    returns-settled uuid b answers (with_answer a r) (handle_api_return (answer uuid a) l).0
      (one_answer uuid a r l h f e ∙ ap some (not_last a r (omega arith))) f es
      (fewer (field_count r.results) (field_count (put a.0 a.1 r.results)) (suc (length answers))
        (length r.acks) (count-put a.0 a.1 r.results e) le)
    ∙ ap some (more a b answers r e)
