-- ===== src/Echo/Http2/Consumed.antt =====
-- echo/h2.go: the bytes that a connection takes in: the window that is given back for them, and
-- the bodies that wait.
use tls_forge.Base.{
  ℕ, suc, zero, ◌+◌, Bool, true, false, List, [], ◌∷◌, ◌++◌, Option, none, some, ◌≡◌, inl, inr,
  refl, ap, sym, ◌∙◌, arith, length, drop, ltb, ◌==◌, if◌then◌else◌, Bool-cases, Text,
}
use tls_forge.Profile.{is_empty}
use tls_forge.Echo.Http2.{
  Frame, settings, window_update, priority, headers, body, ping, go_away, unknown, Out,
  settings_ack, credit, ping_ack, head, chunk, Session, Request, Reply, Conn, failed, step, Runs,
  write_response, chunks, respond, continued, with_body, consumed, pending_at, removed,
  append_request_body, max_response_body, request_from_frame, max_frame_size, record_request,
}
use tls_forge.Echo.Http2.After.{After, goes_on-After, sent-After, if-After}

-- The window of the connection that was given back.
abbrev pub credits : List Out → ℕ
credits [] = 0
credits (credit n ∷ out) = n + credits out
credits (settings_ack ∷ out) = credits out
credits (ping_ack t ∷ out) = credits out
credits (head s st ct n e ∷ out) = credits out
credits (chunk s e t ∷ out) = credits out

credits-append : (xs ys : List Out) → credits (xs ++ ys) ≡ credits xs + credits ys
credits-append [] ys = omega arith
credits-append (credit n ∷ xs) ys = omega (arith, credits-append xs ys)
credits-append (settings_ack ∷ xs) ys = credits-append xs ys
credits-append (ping_ack t ∷ xs) ys = credits-append xs ys
credits-append (head s st ct n e ∷ xs) ys = credits-append xs ys
credits-append (chunk s e t ∷ xs) ys = credits-append xs ys

credits-chunks : (fuel stream : ℕ) (content : Text) → credits (chunks fuel stream content) ≡ 0
unfolding chunks
credits-chunks zero stream content = refl
credits-chunks (suc fuel) stream content = elim (Bool-cases (ltb max_frame_size (length content))) [
  | inl large ↦ rw large (credits-chunks fuel stream (drop max_frame_size content))
  | inr small ↦ rw small refl
]

credits-body :
    (stream : ℕ) (content : Text)
    → credits (if is_empty content then [] else chunks (length content) stream content) ≡ 0
credits-body stream [] = refl
credits-body stream (c ∷ content) = credits-chunks (length (c ∷ content)) stream (c ∷ content)

credits-write_response :
    (stream : ℕ) (reply : Reply) (out : List Out)
    → write_response stream reply ≡ some out
    → credits out ≡ 0
unfolding write_response
credits-write_response stream (status, content_type, content) out e =
    elim (Bool-cases (ltb max_response_body (length content))) [
      | inl large ↦ cc (rw large at e)
      | inr fits ↦
          let whole : some (
                head stream status content_type (length content) (is_empty content)
                ∷ (if is_empty content then [] else chunks (length content) stream content))
              ≡ some out =
            rw fits at e in
          let same : head stream status content_type (length content) (is_empty content)
                ∷ (if is_empty content then [] else chunks (length content) stream content)
              ≡ out =
            cc in
          sym (ap credits same) ∙ credits-body stream content
    ]

-- The bytes of `DATA` in a frame.
abbrev pub size : Frame → ℕ
size (settings ack new) = 0
size (window_update stream increment) = 0
size (priority stream p) = 0
size (headers f) = 0
size (body stream payload ended) = length payload
size (ping ack payload) = 0
size go_away = 0
size unknown = 0

abbrev pub sizes : List Frame → ℕ
sizes [] = 0
sizes (f ∷ frames) = size f + sizes frames

module _ {S : Type 0} (route : S → Session → Request → Reply × S) where
  -- The credits of a connection are those of another and `n` more.
  abbrev Gives : ℕ → Conn S → Conn S → Type 0
  Gives n c d = credits d.written ≡ credits c.written + n

  respond-Gives :
      (n : ℕ) (b c : Conn S) (r : Request) → Gives n b c → After (Gives n b) (respond route c r)
  respond-Gives n b c r h =
      sent-After (Gives n b) _ (write_response r.stream ((route c.server c.session r).0)) (λ o e.
        omega (
          arith,
          credits-append c.written o,
          credits-write_response r.stream ((route c.server c.session r).0) o e,
        ))

  continued-Gives :
      (n : ℕ) (b c : Conn S) (stream : ℕ) (ended : Bool) (r : Option Request)
      → Gives n b c
      → After (Gives n b) (continued route c stream ended r)
  continued-Gives n b c stream ended none h = tt
  continued-Gives n b c stream ended (some r) h =
      if-After (Gives n b) ended _ _
        (respond-Gives n b (record c { pending = removed stream c.pending }) r h) h

  with_body-Gives :
      (n : ℕ) (b c : Conn S) (stream : ℕ) (payload : Text) (ended : Bool) (r : Option Request)
      → Gives n b c
      → After (Gives n b) (with_body route c stream payload ended r)
  with_body-Gives n b c stream payload ended none h = h
  with_body-Gives n b c stream payload ended (some r) h =
      continued-Gives n b c stream ended (append_request_body r payload) h

  consumed-Gives :
      (c : Conn S) (payload : Text) → Gives (length payload) c (consumed route c payload)
  consumed-Gives c [] = omega arith
  consumed-Gives c (b ∷ payload) =
      omega (arith, credits-append c.written (credit (length (b ∷ payload)) ∷ []))

  step-Gives : (c : Conn S) (f : Frame) → After (Gives (size f) c) (step route c f)
  unfolding step
  step-Gives c (settings true new) = omega arith
  step-Gives c (settings false new) = omega (arith, credits-append c.written (settings_ack ∷ []))
  step-Gives c (window_update stream increment) =
      if-After (Gives 0 c) (stream == 0) _ _ (omega arith) (omega arith)
  step-Gives c (priority stream p) = omega arith
  step-Gives c (headers f) = if-After (Gives (size (headers f)) c) f.truncated (failed _) _ tt (
      if-After (Gives (size (headers f)) c) f.ended _ _
        (respond-Gives 0 c (record c { session = record_request c.session f })
          (request_from_frame f) (omega arith))
        (omega arith))
  step-Gives c (body stream payload ended) =
      with_body-Gives (length payload) c (consumed route c payload) stream payload ended
        (pending_at stream c.pending) (consumed-Gives c payload)
  step-Gives c (ping true payload) = omega arith
  step-Gives c (ping false payload) =
      omega (arith, credits-append c.written (ping_ack payload ∷ []))
  step-Gives c go_away = tt
  step-Gives c unknown = omega arith

  -- However the frames come, the window that was given back on the connection is exactly as many
  -- bytes as the `DATA` frames carried, those of unknown streams included.
  pub credits-Runs :
      (frames : List Frame) {c d : Conn S}
      → Runs route c frames d
      → credits d.written ≡ credits c.written + sizes frames
  credits-Runs [] Runs.start = omega arith
  credits-Runs (f ∷ frames) {c} (Runs.next {d} e r) =
      let first = goes_on-After (Gives (size f) c) (step route c f) d e (step-Gives c f) in
      omega (arith, first, credits-Runs frames r)
