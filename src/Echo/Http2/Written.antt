-- ===== src/Echo/Http2/Written.antt =====
-- echo/h2.go: the frames that `writeResponse` writes.
use tls_forge.Base.{
  ℕ, suc, zero, ◌≤◌, ◌<◌, true, false, List, [], ◌∷◌, ◌++◌, none, some, ◌≡◌, inl, inr, refl, ap,
  ◌∙◌, arith, append-nil, ◌⊎◌, length, length-take, length-drop, take, drop, take-append-drop, ltb,
  ltb→lt, Bool-cases, Text,
}
use tls_forge.Echo.Http2.{
  Out, head, chunk, settings_ack, credit, ping_ack, chunks, write_response, max_frame_size,
  max_response_body,
}

-- The bytes of a body, put together from its frames.
abbrev pub payloads : List Out → Text
payloads [] = []
payloads (chunk stream ended payload ∷ out) = payload ++ payloads out
payloads (settings_ack ∷ out) = payloads out
payloads (credit n ∷ out) = payloads out
payloads (ping_ack t ∷ out) = payloads out
payloads (head s st ct n e ∷ out) = payloads out

-- `DATA` frames of one stream, none too long, of which only the last ends the stream.
pub data EndsOnce (stream : ℕ) : List Out → Type 0 where
  last :
      {payload : Text}
      → length payload ≤ max_frame_size
      → EndsOnce stream (chunk stream true payload ∷ [])
  more :
      {payload : Text} {out : List Out}
      → length payload ≤ max_frame_size
      → EndsOnce stream out
      → EndsOnce stream (chunk stream false payload ∷ out)

-- A response: its head, which ends the stream if there is no body, and otherwise the body's frames.
pub data Answers (stream : ℕ) (status content_type : Text) : Text → List Out → Type 0 where
  empty : Answers stream status content_type [] (head stream status content_type 0 true ∷ [])
  full :
      {content : Text} {out : List Out}
      → 0 < length content
      → EndsOnce stream out
      → payloads out ≡ content
      → Answers stream status content_type content
          (head stream status content_type (length content) false ∷ out)

chunks-EndsOnce :
    (fuel stream : ℕ) (content : Text)
    → length content ≤ fuel
    → EndsOnce stream (chunks fuel stream content)
      × (payloads (chunks fuel stream content) ≡ content)
unfolding chunks
chunks-EndsOnce zero stream content h = (last (omega arith), append-nil content)
chunks-EndsOnce (suc fuel) stream content h =
    elim (Bool-cases (ltb max_frame_size (length content))) [
      | inr small ↦ rw small (last (ground arith), append-nil content)
      | inl large ↦
          let (ends, whole) = chunks-EndsOnce fuel stream (drop max_frame_size content) (
            omega (
              arith,
              length-drop max_frame_size content,
              ltb→lt max_frame_size (length content) large,
            )) in
          let size =
            length-take max_frame_size content
              (omega (arith, ltb→lt max_frame_size (length content) large)) in
          rw large (
            more (omega arith) ends,
            ap (λ t. take max_frame_size content ++ t) whole
                ∙ take-append-drop max_frame_size content,
          )
    ]

-- A response of more than 65,535 bytes is refused. Of any other, first one head is written, with
-- the status, the content type and the length of the body, which ends the stream exactly if the
-- body is empty; behind it stands nothing but the body, in frames of at most 16,384 bytes that put
-- together are the body, of which the last ends the stream and no other does.
pub write_response-Answers :
    (stream : ℕ) (status content_type content : Text)
    → ((max_response_body < length content)
        × (write_response stream (status, content_type, content) ≡ none))
      ⊎ ((out : List Out) × (write_response stream (status, content_type, content) ≡ some out)
          × Answers stream status content_type content out)
unfolding write_response
write_response-Answers stream status content_type [] =
    inr (head stream status content_type 0 true ∷ [], refl, empty)
write_response-Answers stream status content_type (c ∷ content) =
    elim (Bool-cases (ltb max_response_body (length (c ∷ content)))) [
      | inl large ↦ rw large (inl (ltb→lt max_response_body (length (c ∷ content)) large, refl))
      | inr fits ↦
          let (ends, whole) =
            chunks-EndsOnce (length (c ∷ content)) stream (c ∷ content) (omega arith) in
          rw fits (inr (_, refl, full (omega arith) ends whole))
    ]
