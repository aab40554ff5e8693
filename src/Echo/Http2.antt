-- ===== src/Echo/Http2.antt =====
-- echo/h2.go: a connection of HTTP/2, frame by frame. The framer and HPACK are not code of the
-- program: a frame comes decoded, and what is written is a list of frames. A write that fails
-- ends the connection and is not modelled. The answer to a request is a parameter, on a state of
-- the server's.
pub mod After
pub mod Written
pub mod Recorded
pub mod Consumed
pub mod Bodies
use tls_forge.Base.{
  ℕ, zero, suc, ◌+◌, ◌-◌, Bool, true, false, not, ◌&&◌, ◌||◌, List, [], ◌∷◌, ◌++◌, Option, none,
  some, length, take, drop, ltb, ◌==◌, if◌then◌else◌, Text, text_eq, codes, ◌≡◌,
}
use tls_forge.Fingerprint.Http.{Setting, Priority, HeaderField, Http2}
use tls_forge.Profile.{is_empty}

abbrev pub max_response_body : ℕ
max_response_body = 65535

abbrev pub max_request_body : ℕ
max_request_body = 65535

abbrev pub max_frame_size : ℕ
max_frame_size = 16384

-- `http2.PriorityParam`
pub record Param : Type 0 where
  pub exclusive : Bool
  pub depends_on : ℕ
  pub weight : ℕ

pub record Headers : Type 0 where
  pub stream : ℕ
  pub truncated : Bool
  pub ended : Bool
  pub fields : List HeaderField
  pub priority : Param

pub data Frame : Type 0 where
  settings : (ack : Bool) → List Setting → Frame
  window_update : (stream increment : ℕ) → Frame
  priority : (stream : ℕ) → Param → Frame
  headers : Headers → Frame
  body : (stream : ℕ) (payload : Text) (ended : Bool) → Frame
  ping : (ack : Bool) (payload : Text) → Frame
  go_away unknown : Frame

-- What is written.
pub data Out : Type 0 where
  settings_ack : Out
  credit : (increment : ℕ) → Out
  ping_ack : Text → Out
  head : (stream : ℕ) (status content_type : Text) (size : ℕ) (ended : Bool) → Out
  chunk : (stream : ℕ) (ended : Bool) (payload : Text) → Out

pub data Error : Type 0 where
  header_list_too_large request_body_too_large response_too_large bad_preface : Error

pub record Request : Type 0 where
  pub method : Text
  pub path : Text
  pub stream : ℕ
  pub content : Text

-- What a session has recorded of HTTP/2.
pub record Session : Type 0 where
  pub http2 : Http2
  pub recorded : Bool

unfoldable pub record_settings : Session → List Setting → Session
record_settings s new =
    if s.recorded
    then s
    else record s { http2 = record s.http2 { settings = s.http2.settings ++ new } }

unfoldable pub record_window_update : Session → ℕ → Session
record_window_update s increment =
    if s.recorded then s else record s { http2 = record s.http2 { window_update = increment } }

abbrev pub priority_of : ℕ → Param → Priority
priority_of stream p = record {
  stream_id = stream;
  exclusive = p.exclusive;
  depends_on = p.depends_on;
  weight = p.weight;
}

unfoldable pub record_priority : Session → ℕ → Param → Session
record_priority s stream p = if s.recorded then s else record s {
  http2 = record s.http2 { priorities = s.http2.priorities ++ priority_of stream p ∷ [] };
}

-- `p != (http2.PriorityParam{})`
abbrev pub is_set : Param → Bool
is_set p = p.exclusive || not (p.depends_on == 0) || not (p.weight == 0)

unfoldable pub record_request : Session → Headers → Session
record_request s f = if s.recorded then s else record {
  recorded = true;
  http2 = record s.http2 {
    headers = s.http2.headers ++ f.fields;
    header_priority =
        if is_set f.priority
        then some (priority_of f.stream f.priority)
        else s.http2.header_priority;
  };
}

abbrev pub request_field : Request → HeaderField → Request
request_field r f =
    if text_eq f.name (codes ":method")
    then record r { method = f.value }
    else if text_eq f.name (codes ":path")
    then record r { path = f.value }
    else r

-- The loop over the fields of a request: the last method and the last path stay.
unfoldable pub request_loop : Request → List HeaderField → Request
request_loop r [] = r
request_loop r (f ∷ fields) = request_loop (request_field r f) fields

unfoldable pub request_from_frame : Headers → Request
unfolding request_loop
request_from_frame f =
    request_loop (record { method = []; path = []; stream = f.stream; content = [] }) f.fields

-- `none` is the error of a body that is too long.
unfoldable pub append_request_body : Request → Text → Option Request
append_request_body r payload =
    if ltb (max_request_body - length r.content) (length payload)
    then none
    else some (record r { content = r.content ++ payload })

-- The loop of `writeResponse`, on as many rounds as the body has bytes.
unfoldable pub chunks : ℕ → ℕ → Text → List Out
chunks zero stream content = chunk stream true content ∷ []
chunks (suc fuel) stream content =
    let rest =
      chunk stream false (take max_frame_size content)
      ∷ chunks fuel stream (drop max_frame_size content) in
    if ltb max_frame_size (length content) then rest else chunk stream true content ∷ []

abbrev pub Reply : Type 0
Reply = Text × Text × Text

unfoldable pub write_response : ℕ → Reply → Option (List Out)
unfolding chunks
write_response stream (status, content_type, content) =
    if ltb max_response_body (length content)
    then none
    else some (
        head stream status content_type (length content) (is_empty content)
        ∷ (if is_empty content then [] else chunks (length content) stream content))

-- `pending`
unfoldable pub pending_at : ℕ → List (ℕ × Request) → Option Request
pending_at stream [] = none
pending_at stream ((k, r) ∷ pending) =
    let rest = pending_at stream pending in if k == stream then some r else rest

unfoldable pub removed : ℕ → List (ℕ × Request) → List (ℕ × Request)
removed stream [] = []
removed stream ((k, r) ∷ pending) =
    let rest = removed stream pending in if k == stream then rest else (k, r) ∷ rest

abbrev pub put : ℕ → Request → List (ℕ × Request) → List (ℕ × Request)
put stream r pending = (stream, r) ∷ removed stream pending

-- A connection, with the state of the server that the answers depend on.
pub record Conn (S : Type 0) : Type 0 where
  pub session : Session
  pub pending : List (ℕ × Request)
  pub written : List Out
  pub server : S

-- After a frame the connection goes on, is at its end, or fails.
pub data Next (S : Type 0) : Type 0 where
  goes_on : Conn S → Next S
  at_end : Conn S → Next S
  failed : Error → Next S

abbrev pub wrote : {S : Type 0} → Conn S → List Out → Conn S
wrote c out = record c { written = c.written ++ out }

abbrev pub sent : {S : Type 0} → Conn S → Option (List Out) → Next S
sent c none = failed response_too_large
sent c (some out) = goes_on (wrote c out)

module _ {S : Type 0} (route : S → Session → Request → Reply × S) where
  -- `respond`
  abbrev pub respond : Conn S → Request → Next S
  respond c r =
      let (reply, server) = route c.server c.session r in
      sent (record c { server = server }) (write_response r.stream reply)

  -- The `HEADERS` of a request that ends there, or waits for its body.
  abbrev pub begun : Conn S → Headers → Request → Next S
  begun c f r =
      if f.ended then respond c r else goes_on (record c { pending = put f.stream r c.pending })

  -- A request with the `DATA` that came for it.
  abbrev pub continued : Conn S → ℕ → Bool → Option Request → Next S
  continued c stream ended none = failed request_body_too_large
  continued c stream ended (some r) =
      if ended
      then respond (record c { pending = removed stream c.pending }) r
      else goes_on (record c { pending = put stream r c.pending })

  abbrev pub with_body : Conn S → ℕ → Text → Bool → Option Request → Next S
  with_body c stream payload ended none = goes_on c
  with_body c stream payload ended (some r) =
      continued c stream ended (append_request_body r payload)

  abbrev pub consumed : Conn S → Text → Conn S
  consumed c [] = c
  consumed c (b ∷ payload) = wrote c (credit (length (b ∷ payload)) ∷ [])

  -- One round of the loop of `serveHTTP2`.
  unfoldable pub step : Conn S → Frame → Next S
  step c (settings true new) = goes_on c
  step c (settings false new) =
      goes_on (wrote (record c { session = record_settings c.session new }) (settings_ack ∷ []))
  step c (window_update stream increment) =
      if stream == 0
      then goes_on (record c { session = record_window_update c.session increment })
      else goes_on c
  step c (priority stream p) = goes_on (record c { session = record_priority c.session stream p })
  step c (headers f) =
      if f.truncated
      then failed header_list_too_large
      else begun (record c { session = record_request c.session f }) f (request_from_frame f)
  step c (body stream payload ended) =
      with_body (consumed c payload) stream payload ended (pending_at stream c.pending)
  step c (ping true payload) = goes_on c
  step c (ping false payload) = goes_on (wrote c (ping_ack payload ∷ []))
  step c go_away = at_end c
  step c unknown = goes_on c

  -- The frames that a connection goes on through.
  pub data Runs : Conn S → List Frame → Conn S → Type 0 where
    start : {c : Conn S} → Runs c [] c
    next :
        {c d e : Conn S} {f : Frame} {frames : List Frame}
        → step c f ≡ goes_on d
        → Runs d frames e
        → Runs c (f ∷ frames) e

-- `readPreface`, for the preface of the protocol.
unfoldable pub read_preface : Text → Text → Option Text
unfolding text_eq
read_preface preface input =
    if not (ltb (length input) (length preface)) && text_eq (take (length preface) input) preface
    then some (drop (length preface) input)
    else none
