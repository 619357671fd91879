-- ===== src/Dipper/Rpc/Exchange.antt =====
-- A call and its return, from one end to the other.
use Prim.Native.String.{◌++◌}
use mathlib.Core.Option.{some-injective}
use honeydipper.Common.{
  append-nil, true, ap, length, Option, none, some, [], ◌∷◌, String, ◌≡◌, refl, sym, ◌∙◌, subst,
  str_ne, Option-cases, inl, inr, ◌≢◌,
}
use honeydipper.Common.Int.{ℤ}
use honeydipper.Common.Assoc.{Assoc, read, lookup}
use honeydipper.Text.Number.{itoa-ne, digits}
use honeydipper.Outcome.{Outcome, done, panic, Fault, ◌>>=◌, Outcome-cases}
use honeydipper.Dipper.Message.{Bytes, Payload}
use honeydipper.Dipper.Message.Wire.{payload_bytes, fetch_payload}
use honeydipper.Dipper.Message.RoundTrip.{raw, fetch_payload-append}
use honeydipper.Dipper.IdMap.{id_map_get, id_map_put}
use honeydipper.Dipper.IdMap.Fresh.{IsValid, id_map_put-Stored, id_map_put-key}
use honeydipper.Dipper.Rpc.{
  skip, Answer, answer_error, answer_bytes, answer_of, Mail, Result, failed, result, Caller,
  raw_call, open_call, result_of, delivered, deliver, handle_return,
}
use honeydipper.Dipper.Rpc.Provider.{
  RpcProvider, Reply, Handling, replies, panics, too_late, rpc_return, rpc_return_error, returner,
  rpc_router,
}
use honeydipper.Dipper.Rpc.Steps.{put_result}

none≢some {ℓ} : {A : Type ℓ} {a : A} → none ≢ some a
none≢some e = cc

module _ (marshal : Payload → Option Bytes) where
  -- SendMessage at the provider and FetchRawMessage at the caller: the payload goes as bytes, and the
  -- message arrives as a raw one. Its names and labels are taken to arrive as they were sent.
  unfoldable pub over_wire : Mail → Outcome Mail
  over_wire m = do
    b ← payload_bytes marshal m.is_raw m.payload
    (p, rest) ← fetch_payload (length b) b
    done (record m { payload = p; is_raw = true })

  -- What the caller receives for the way in which the handler ends.
  error_or_payload : Reply → Option String → Outcome Result
  error_or_payload r (some reason) = done (failed ("rpc error: reason: " ++ reason))
  error_or_payload r none = do b ← payload_bytes marshal r.is_raw r.payload; done (result (raw b))

  unfoldable pub outcome : Handling → Outcome Result
  unfolding error_or_payload
  outcome (replies r) = error_or_payload r (lookup "error" r.labels)
  outcome (panics text) = done (failed ("rpc error: reason: " ++ text))
  outcome too_late = done (failed ("rpc error: reason: " ++ "timeout"))

  -- What CallRaw then returns: the error, or the bytes of the payload.
  bytes_or_none : Bytes → Answer
  bytes_or_none [] = answer_bytes none
  bytes_or_none (b ∷ bs) = answer_bytes (some (b ∷ bs))

  error_or_bytes : Reply → Option String → Outcome Answer
  error_or_bytes r (some reason) = done (answer_error ("rpc error: reason: " ++ reason))
  error_or_bytes r none = do b ← payload_bytes marshal r.is_raw r.payload; done (bytes_or_none b)

  unfoldable pub call_result : Handling → Outcome Answer
  unfolding error_or_bytes bytes_or_none
  call_result (replies r) = error_or_bytes r (lookup "error" r.labels)
  call_result (panics text) = done (answer_error ("rpc error: reason: " ++ text))
  call_result too_late = done (answer_error ("rpc error: reason: " ++ "timeout"))

-- What an opened call leaves: its key, with an empty channel, and the rest of the caller.
opened :
    (c : Caller) {id : String} {c' : Caller}
    → IsValid c.results
    → open_call c ≡ some (id, c')
    → (id_map_get id c'.results ≡ some none) × (id ≢ skip)
unfolding open_call digits
opened c {id} {c'} ok e = elim (Option-cases (id_map_put none c.results)) [
  | inl ((k, m), p) ↦
      let (n, shown) = id_map_put-key none c.results p in
      let stored = id_map_put-Stored none c.results ok p in
      subst (λ (r : String × Caller). (id_map_get r.0 (r.1).results ≡ some none) × (r.0 ≢ skip))
        (some-injective _ _ (rw (p, open_call) at e))
        (stored.found, λ q. itoa-ne n skip refl (sym shown ∙ q))
  | inr p ↦ absurd (none≢some (rw (p, open_call) at e))
]

returned_id :
    (p : RpcProvider) (call : Assoc String) (h : Handling)
    → read "rpcID" (returner p call h).labels ≡ read "rpcID" call
unfolding returner rpc_return rpc_return_error lookup
returned_id p call (replies r) = elim (Option-cases (lookup "error" r.labels)) [
  | inl (reason, e) ↦ rw e refl
  | inr e ↦ rw e refl
]
returned_id p call (panics text) = refl
returned_id p call too_late = refl

fetch-raw : (b : Bytes) → fetch_payload (length b) b ≡ done (raw b, [])
unfolding fetch_payload
fetch-raw b = rw append-nil at (fetch_payload-append b [])

module _ (marshal : Payload → Option Bytes) where
  wired-eq :
      (m : Mail) (b : Bytes)
      → payload_bytes marshal m.is_raw m.payload ≡ done b
      → over_wire marshal m ≡ done (record m { payload = raw b; is_raw = true })
  unfolding over_wire
  wired-eq m b e = rw (e, fetch-raw b) refl

  wired-panic :
      (m : Mail) (f : Fault)
      → payload_bytes marshal m.is_raw m.payload ≡ panic f
      → over_wire marshal m ≡ panic f
  unfolding over_wire
  wired-panic m f e = rw e refl

  answer-raw : (b : Bytes) → answer_of (result (raw b)) ≡ done (bytes_or_none marshal b)
  unfolding answer_of bytes_or_none
  answer-raw [] = refl
  answer-raw (b ∷ bs) = refl

  outcome-call_result : (h : Handling) → (outcome marshal h >>= answer_of) ≡ call_result marshal h
  unfolding outcome call_result answer_of error_or_payload error_or_bytes
  outcome-call_result (replies r) = elim (Option-cases (lookup "error" r.labels)) [
    | inl (reason, e) ↦ rw e refl
    | inr e ↦ elim (Outcome-cases (payload_bytes marshal r.is_raw r.payload)) [
      | inl (b, f) ↦ rw (e, f) (answer-raw b)
      | inr (f, q) ↦ rw (e, q) refl
    ]
  ]
  outcome-call_result (panics text) = refl
  outcome-call_result too_late = refl

  arrived_error :
      (p : RpcProvider) (call : Assoc String) (reason : String)
      → (over_wire marshal (rpc_return_error p call reason) >>= λ m. done (result_of m))
        ≡ done (failed ("rpc error: reason: " ++ reason))
  unfolding rpc_return_error over_wire payload_bytes fetch_payload lookup result_of
  arrived_error p call reason = refl

  -- The result of what arrives is what the handler has made.
  arrived_result :
      (p : RpcProvider) (call : Assoc String) (h : Handling)
      → (over_wire marshal (returner p call h) >>= λ m. done (result_of m)) ≡ outcome marshal h
  unfolding returner rpc_return lookup outcome error_or_payload result_of over_wire
  arrived_result p call (replies r) = elim (Option-cases (lookup "error" r.labels)) [
    | inl (reason, e) ↦ rw e (arrived_error p call reason)
    | inr e ↦ elim (Outcome-cases (payload_bytes marshal r.is_raw r.payload)) [
      | inl (b, f) ↦ rw (e, f, fetch-raw b) refl
      | inr (f, q) ↦ rw (e, q) refl
    ]
  ]
  arrived_result p call (panics text) = arrived_error p call text
  arrived_result p call too_late = arrived_error p call "timeout"

  delivers :
      (m : Mail) (c : Caller) (id : String)
      → read "rpcID" m.labels ≡ id
      → id_map_get id c.results ≡ some none
      → (over_wire marshal m >>= λ r. done (handle_return r c)) ≡ (
          (over_wire marshal m >>= λ r. done (result_of r)) >>= λ a.
          done (delivered (put_result id a c)))
  unfolding handle_return deliver over_wire
  delivers m c id q e = elim (Outcome-cases (payload_bytes marshal m.is_raw m.payload)) [
    | inl (b, f) ↦ rw (f, fetch-raw b, handle_return, q, e) refl
    | inr (f, g) ↦ rw g refl
  ]

  -- A call that is opened under `id`: whatever the handler does, the provider returns one message,
  -- unless its payload can not be marshalled, and HandleReturn puts into the channel of this call what
  -- arrives of it, the bytes of the payload, or the text of the handler's error, its panic or the
  -- timeout; and with this CallRaw returns the bytes, an empty payload as none, or the error.
  pub handle_return-rpc_router :
      (parse : String → Option ℤ) (p : RpcProvider) (feature method : String) (params : Bytes)
      (h : Handling) (c : Caller) {id : String} {c' : Caller}
      → IsValid c.results
      → open_call c ≡ some (id, c')
      → (m : Mail) × (rpc_router parse p (raw_call c feature method params id).labels h
          ≡ done (m ∷ []))
        × ((over_wire marshal m >>= λ r. done (handle_return r c'))
            ≡ (outcome marshal h >>= λ a. done (delivered (put_result id a c'))))
        × ((outcome marshal h >>= answer_of) ≡ call_result marshal h)
  unfolding rpc_router raw_call lookup
  handle_return-rpc_router parse p feature method params h c {id} {c'} ok e =
      let (empty, ne) = opened c ok e in
      let call = (raw_call c feature method params id).labels in
      (
        returner p call h,
        rw (str_ne id skip ne) refl,
        delivers (returner p call h) c' id (returned_id p call h) empty
            ∙ ap (λ o. o >>= λ a. done (delivered (put_result id a c'))) (arrived_result p call h),
        outcome-call_result h,
      )
