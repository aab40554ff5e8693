-- ===== src/Echo/Http2/Bodies.antt =====
-- echo/h2.go: the bodies of requests that wait for their end.
use tls_forge.Base.{
  ℕ, ◌-◌, ◌≤◌, Bool, true, false, List, [], ◌∷◌, ◌++◌, some, ◌≡◌, inl, inr, refl, ap, ◌∙◌, arith,
  length, length-append, ltb, ◌==◌, Bool-cases, Option-cases, Text, text_eq, codes,
}
use tls_forge.Fingerprint.Http.{HeaderField}
use tls_forge.Echo.Http2.{
  Frame, settings, window_update, priority, headers, body, ping, go_away, unknown, Session, Request,
  Reply, Conn, goes_on, failed, step, Runs, write_response, respond, begun, continued, with_body,
  consumed, pending_at, removed, put, append_request_body, max_request_body, request_from_frame,
  request_loop, request_field, record_request, Headers,
}
use tls_forge.Echo.Http2.After.{After, goes_on-After, sent-After, if-After}

-- A body within the limit.
abbrev pub IsSmall : Request → Type 0
IsSmall r = length r.content ≤ max_request_body

abbrev pub AreSmall : List (ℕ × Request) → Type 0
AreSmall [] = Unit
AreSmall ((k, r) ∷ pending) = IsSmall r × AreSmall pending

removed-AreSmall :
    (stream : ℕ) (pending : List (ℕ × Request))
    → AreSmall pending
    → AreSmall (removed stream pending)
unfolding removed
removed-AreSmall stream [] h = tt
removed-AreSmall stream ((k, r) ∷ pending) (small, h) = elim (Bool-cases (k == stream)) [
  | inl here ↦ rw here (removed-AreSmall stream pending h)
  | inr other ↦ rw other (small, removed-AreSmall stream pending h)
]

pending_at-IsSmall :
    (stream : ℕ) (pending : List (ℕ × Request)) (r : Request)
    → AreSmall pending
    → pending_at stream pending ≡ some r
    → IsSmall r
unfolding pending_at
pending_at-IsSmall stream [] r h e = cc
pending_at-IsSmall stream ((k, q) ∷ pending) r (small, h) e = elim (Bool-cases (k == stream)) [
  | inl here ↦
      let whole : some q ≡ some r = rw here at e in
      let same : q ≡ r = cc in omega (arith, ap (λ (x : Request). length x.content) same)
  | inr other ↦ pending_at-IsSmall stream pending r h (rw other at e)
]

append_request_body-IsSmall :
    (q r : Request) (payload : Text)
    → IsSmall q
    → append_request_body q payload ≡ some r
    → IsSmall r
unfolding append_request_body
append_request_body-IsSmall q r payload small e =
    elim (Bool-cases (ltb (max_request_body - length q.content) (length payload))) [
      | inl large ↦ cc (rw large at e)
      | inr fits ↦
          let whole : some (record q { content = q.content ++ payload }) ≡ some r = rw fits at e in
          let same : record q { content = q.content ++ payload } ≡ r = cc in
          let room : length payload ≤ max_request_body - length q.content = ground arith in
          omega
            (arith, ap (λ (x : Request). length x.content) same, length-append q.content payload)
    ]

request_field-content : (r : Request) (f : HeaderField) → (request_field r f).content ≡ r.content
request_field-content r f = elim (Bool-cases (text_eq f.name (codes ":method"))) [
  | inl method ↦ rw method refl
  | inr other ↦ elim (Bool-cases (text_eq f.name (codes ":path"))) [
    | inl path ↦ rw (other, path) refl
    | inr neither ↦ rw (other, neither) refl
  ]
]

request_loop-content :
    (fields : List HeaderField) (r : Request) → (request_loop r fields).content ≡ r.content
unfolding request_loop
request_loop-content [] r = refl
request_loop-content (f ∷ fields) r =
    request_loop-content fields (request_field r f) ∙ request_field-content r f

module _ {S : Type 0} (route : S → Session → Request → Reply × S) where
  -- No body that waits is longer than the limit.
  abbrev pub IsBounded : Conn S → Type 0
  IsBounded c = AreSmall c.pending

  respond-IsBounded : (c : Conn S) (r : Request) → IsBounded c → After IsBounded (respond route c r)
  respond-IsBounded c r h =
      sent-After IsBounded (record c { server = (route c.server c.session r).1 })
        (write_response r.stream ((route c.server c.session r).0)) (λ o e. h)

  continued-IsBounded :
      (c : Conn S) (stream : ℕ) (ended : Bool) (q : Request) (payload : Text)
      → IsBounded c
      → IsSmall q
      → After IsBounded (continued route c stream ended (append_request_body q payload))
  continued-IsBounded c stream ended q payload h small =
      elim (Option-cases (append_request_body q payload)) [
        | inl none_ ↦ rw none_ tt
        | inr (r, some_) ↦
            let rest = removed-AreSmall stream c.pending h in
            rw some_ (
              if-After IsBounded ended
                (respond route (record c { pending = removed stream c.pending }) r)
                (goes_on (record c { pending = put stream r c.pending }))
                (respond-IsBounded (record c { pending = removed stream c.pending }) r rest)
                (append_request_body-IsSmall q r payload small some_, rest))
      ]

  with_body-IsBounded :
      (c : Conn S) (stream : ℕ) (payload : Text) (ended : Bool)
      → IsBounded c
      → After IsBounded (with_body route c stream payload ended (pending_at stream c.pending))
  with_body-IsBounded c stream payload ended h = elim (Option-cases (pending_at stream c.pending)) [
    | inl none_ ↦ rw none_ h
    | inr (q, some_) ↦ rw some_ (
        continued-IsBounded c stream ended q payload h
          (pending_at-IsSmall stream c.pending q h some_))
  ]

  consumed-IsBounded :
      (c : Conn S) (payload : Text) → IsBounded c → IsBounded (consumed route c payload)
  consumed-IsBounded c [] h = h
  consumed-IsBounded c (b ∷ payload) h = h

  -- The pending requests do not change with the window.
  with_consumed :
      (c : Conn S) (stream : ℕ) (payload : Text) (ended : Bool)
      → IsBounded c
      → After IsBounded (
          with_body route
            (consumed route c payload)
            stream
            payload
            ended
            (pending_at stream c.pending))
  with_consumed c stream [] ended h = with_body-IsBounded c stream [] ended h
  with_consumed c stream (b ∷ payload) ended h =
      with_body-IsBounded (consumed route c (b ∷ payload)) stream (b ∷ payload) ended h

  begun-IsBounded :
      (c : Conn S) (f : Headers)
      → IsBounded c
      → After IsBounded (begun route c f (request_from_frame f))
  unfolding request_from_frame
  begun-IsBounded c f h =
      let r = request_from_frame f in
      let empty =
        request_loop-content f.fields
          (record { method = []; path = []; stream = f.stream; content = [] }) in
      if-After IsBounded f.ended (respond route c r)
        (goes_on (record c { pending = put f.stream r c.pending })) (respond-IsBounded c r h)
        (omega (arith, ap length empty), removed-AreSmall f.stream c.pending h)

  step-IsBounded : (c : Conn S) (f : Frame) → IsBounded c → After IsBounded (step route c f)
  unfolding step
  step-IsBounded c (settings true new) h = h
  step-IsBounded c (settings false new) h = h
  step-IsBounded c (window_update stream increment) h = if-After IsBounded (stream == 0) _ _ h h
  step-IsBounded c (priority stream p) h = h
  step-IsBounded c (headers f) h =
      if-After IsBounded f.truncated (failed _) _ tt
        (begun-IsBounded (record c { session = record_request c.session f }) f h)
  step-IsBounded c (body stream payload ended) h = with_consumed c stream payload ended h
  step-IsBounded c (ping true payload) h = h
  step-IsBounded c (ping false payload) h = h
  step-IsBounded c go_away h = tt
  step-IsBounded c unknown h = h

  -- However the frames come, no body that waits for its end is ever longer than 65,535 bytes.
  pub IsBounded-Runs :
      (frames : List Frame) {c d : Conn S} → Runs route c frames d → IsBounded c → IsBounded d
  IsBounded-Runs [] Runs.start h = h
  IsBounded-Runs (f ∷ frames) {c} (Runs.next {d} e r) h =
      IsBounded-Runs frames r (goes_on-After IsBounded (step route c f) d e (step-IsBounded c f h))
