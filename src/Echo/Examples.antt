-- ===== src/Echo/Examples.antt =====
-- A request of HTTP/1.1, a connection of HTTP/2, and a browser that reports what it is.
use tls_forge.Base.{
  ℕ, ◌+◌, ◌<◌, true, false, List, [], ◌∷◌, ◌++◌, Option, none, some, ◌≡◌, ◌⊎◌, refl, arith,
  if◌then◌else◌, Text, text_eq, codes, to_lower, is_free_of, trim_space, trim_left, trim_right,
  cut_text, decimal, parse_int, digits_value,
}
use tls_forge.Base.Int.{parse_digits}
use tls_forge.Base.Numerals.{decimal_fuel}
use tls_forge.Fingerprint.Http.{Setting}
use tls_forge.Capture.{Http1, Navigator}
use tls_forge.Echo.Http1.{
  Line, ok, err, read_request, read_line, three_parts, header_loop, length_loop, seen_of, Request,
  duplicate_length, transfer_encoding,
}
use tls_forge.Echo.Http1.RoundTrip.{encode, content_length, read_request-encode}
use tls_forge.Echo.Http1.Bounds.{IsRead, read_request-IsRead}
use tls_forge.Echo.Http2 as H2
use tls_forge.Echo.Http2.{
  Reply, Out, Frame, Headers, Conn, Session, step, Runs, write_response, chunks, max_response_body,
  pending_at, removed, append_request_body, record_request, record_settings, request_from_frame,
  request_loop, priority_of, is_set,
}
use tls_forge.Echo.Http2.Written.{Answers, write_response-Answers}
use tls_forge.Echo.Http2.Consumed.{credits, sizes, credits-Runs}
use tls_forge.Echo.Http2.Bodies.{IsBounded, IsBounded-Runs}
use tls_forge.Echo.Http2.Recorded.{waiting, settings_in, window_in, priorities_in, session-Runs}
use tls_forge.Echo.Navigation.{
  Step, session_at, Asked, route, Server, set_navigation, capture_session, attach_http1, report,
  with_session, started, issue, base36, base36_fuel, Steps,
}
use tls_forge.Echo.Navigation.Issued.{served_to, report-set_navigation}
use tls_forge.Echo.Navigation.Queue.{Event, run, finished_in, completed-run, asks, run-asks}

abbrev accept : List Line
accept = (codes "Accept", codes "*/*") ∷ []

read_request-encode_example :
    read_request (
      encode (codes "POST") (codes "/collect") (codes "HTTP/1.1") accept (codes "{}")
      ++ codes "GET")
    ≡ ok (
      record {
        seen =
            seen_of
              (codes "POST", codes "/collect", codes "HTTP/1.1")
              (accept ++ content_length (codes "{}") ∷ []);
        body = codes "{}";
      },
      codes "GET",
    )
unfolding is_free_of trim_space trim_left trim_right to_lower text_eq
read_request-encode_example =
    read_request-encode (codes "POST") (codes "/collect") (codes "HTTP/1.1") accept (codes "{}")
      (codes "GET") refl refl refl (omega arith) ((refl, refl, omega arith, refl, refl), tt)
      (refl, tt) (omega arith) (omega arith)

abbrev post_text : Text
post_text = encode (codes "POST") (codes "/") (codes "HTTP/1.1") [] (codes "{}") ++ codes "GET"

-- Two lengths, and a body in chunks.
refused_runs :
    (length_loop none (content_length [] ∷ content_length [] ∷ []) ≡ err duplicate_length)
    × (length_loop none ((codes "Transfer-Encoding", codes "chunked") ∷ []) ≡ err transfer_encoding)
unfolding length_loop to_lower text_eq parse_int parse_digits digits_value decimal decimal_fuel
refused_runs = (refl, refl)

abbrev got : Request
got = record {
  seen = seen_of (codes "POST", codes "/", codes "HTTP/1.1") (content_length (codes "{}") ∷ []);
  body = codes "{}";
}

read_request-IsRead_example : IsRead post_text got (codes "GET")
unfolding read_request read_line three_parts header_loop length_loop cut_text trim_right trim_left
    trim_space to_lower text_eq parse_int parse_digits digits_value decimal decimal_fuel
read_request-IsRead_example = read_request-IsRead post_text got (codes "GET") refl

write_response-Answers_example :
    ((max_response_body < 2)
      × (write_response 1 (codes "200", codes "text/plain", codes "ok") ≡ none))
    ⊎ ((out : List Out) × (write_response 1 (codes "200", codes "text/plain", codes "ok")
          ≡ some out)
        × Answers 1 (codes "200") (codes "text/plain") (codes "ok") out)
write_response-Answers_example =
    write_response-Answers 1 (codes "200") (codes "text/plain") (codes "ok")

-- Every request is answered alike.
abbrev answered : ℕ → Session → H2.Request → Reply × ℕ
answered n s r = ((codes "200", codes "text/plain", codes "ok"), n + 1)

abbrev opened : Conn ℕ
opened = record { session = waiting [] 0 []; pending = []; written = []; server = 0 }

abbrev new_settings : List Setting
new_settings = record { id = 1; value = 65536 } ∷ []

abbrev post : Headers
post = record {
  stream = 1;
  truncated = false;
  ended = false;
  fields = record { name = codes ":method"; value = codes "POST" } ∷ [];
  priority = record { exclusive = true; depends_on = 0; weight = 255 };
}

abbrev frames : List Frame
frames =
    Frame.settings false new_settings
    ∷ Frame.headers post
    ∷ Frame.body 1 (codes "ab") false
    ∷ Frame.body 9 (codes "c") false
    ∷ []

abbrev now : Conn ℕ
now = record {
  session = record {
    recorded = true;
    http2 = record {
      settings = new_settings;
      window_update = 0;
      priorities = [];
      headers = post.fields;
      header_priority =
          some (record { stream_id = 1; exclusive = true; depends_on = 0; weight = 255 });
    };
  };
  pending = (1, record { method = codes "POST"; path = []; stream = 1; content = codes "ab" }) ∷ [];
  written = Out.settings_ack ∷ Out.credit 2 ∷ Out.credit 1 ∷ [];
  server = 0;
}

frames-Runs : Runs answered opened frames now
unfolding step record_settings record_request request_from_frame request_loop text_eq pending_at
    removed append_request_body
frames-Runs = Runs.next refl (Runs.next refl (Runs.next refl (Runs.next refl Runs.start)))

credits-Runs_example : credits now.written ≡ credits opened.written + sizes frames
credits-Runs_example = credits-Runs answered frames {c = opened} {d = now} frames-Runs

IsBounded-Runs_example : IsBounded answered now
IsBounded-Runs_example = IsBounded-Runs answered frames {c = opened} {d = now} frames-Runs tt

session-Runs_example : now.session ≡ record {
  recorded = true;
  http2 = record {
    settings = settings_in (Frame.settings false new_settings ∷ []);
    window_update = window_in 0 (Frame.settings false new_settings ∷ []);
    priorities = priorities_in (Frame.settings false new_settings ∷ []);
    headers = post.fields;
    header_priority = if is_set post.priority then some (priority_of 1 post.priority) else none;
  };
}
session-Runs_example =
    session-Runs answered (Frame.settings false new_settings ∷ [])
      (Frame.body 1 (codes "ab") false ∷ Frame.body 9 (codes "c") false ∷ []) post opened now refl
      (refl, tt) frames-Runs

abbrev nothing : Text → Option Navigator
nothing text = none

abbrev blank : Http1
blank = record {
  method = codes "GET";
  path = codes "/";
  proto = codes "HTTP/1.1";
  header_order = [];
  header_names = [];
  headers = [];
}

-- The server after session 3 was served the page.
abbrev served : Server
served = (issue started 3).1

abbrev home : Asked
home = record { path = codes "/"; navigation = []; content = [] }

-- Session 5 comes back from the hop with the token of session 3.
report-set_navigation_example :
    (r : ℕ) × (served_to served 5 (codes "1") ≡ some r)
    × (capture_session served (codes "1") 4 ≡ some (report served r))
    × (attach_http1 served (codes "1") blank
        ≡ some (with_session served r (record (served.sessions r) { http1 = some blank })))
unfolding route set_navigation session_at text_eq issue base36 base36_fuel
report-set_navigation_example =
    report-set_navigation nothing served served served 5 4 (codes "1") (codes "1") blank
      (Steps.step (Step.routed started 3 home) Steps.done) refl Steps.done (omega arith)

abbrev events : List Event
events = Event.finished 3 ∷ Event.asked ∷ Event.finished 5 ∷ []

completed-run_example :
    (run events started).0 ++ ((run events started).1).completed
    ≡ started.completed ++ finished_in events
completed-run_example = completed-run events started

abbrev waiting_two : Server
waiting_two = record started { completed = 3 ∷ 5 ∷ [] }

run-asks_example : (run (asks waiting_two.completed) waiting_two).0 ≡ waiting_two.completed
run-asks_example = run-asks waiting_two
