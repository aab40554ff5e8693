-- ===== src/Echo/Http2/Recorded.antt =====
-- echo/h2.go: what a session records: the preamble and the first request.
use tls_forge.Base.{
  ℕ, Bool, true, false, List, [], ◌∷◌, ◌++◌, append-nil, append_assoc, Option, none, some, ◌≡◌, inl,
  inr, refl, ap, ap₂, sym, ◌∙◌, ◌==◌, if◌then◌else◌, Bool-cases, if_true, Text, All,
}
use tls_forge.Fingerprint.Http.{Setting, Priority}
use tls_forge.Echo.Http2.{
  Frame, settings, window_update, priority, headers, body, ping, go_away, unknown, Headers, Session,
  Request, Reply, Conn, goes_on, failed, step, Runs, write_response, respond, continued, with_body,
  consumed, pending_at, removed, put, append_request_body, request_from_frame, record_settings,
  record_window_update, record_priority, record_request, priority_of, is_set,
}
use tls_forge.Echo.Http2.After.{After, goes_on-After, sent-After, if-After}

-- What a run of frames tells of a client before its first request.
abbrev pub settings_in : List Frame → List Setting
settings_in [] = []
settings_in (settings false new ∷ frames) = new ++ settings_in frames
settings_in (f ∷ frames) = settings_in frames

abbrev pub window_in : ℕ → List Frame → ℕ
window_in w [] = w
window_in w (window_update stream increment ∷ frames) =
    window_in (if stream == 0 then increment else w) frames
window_in w (f ∷ frames) = window_in w frames

abbrev pub priorities_in : List Frame → List Priority
priorities_in [] = []
priorities_in (priority stream p ∷ frames) = priority_of stream p ∷ priorities_in frames
priorities_in (f ∷ frames) = priorities_in frames

-- No request is among the frames.
abbrev pub no_headers : Frame → Bool
no_headers (headers f) = false
no_headers f = true

-- The session after a frame.
abbrev recorded_by : Session → Frame → Session
recorded_by s (settings false new) = record_settings s new
recorded_by s (window_update stream increment) =
    if stream == 0 then record_window_update s increment else s
recorded_by s (priority stream p) = record_priority s stream p
recorded_by s (headers f) = record_request s f
recorded_by s f = s

module _ {S : Type 0} (route : S → Session → Request → Reply × S) where
  abbrev Keeps : Session → Conn S → Type 0
  Keeps s c = c.session ≡ s

  respond-Keeps :
      (s : Session) (c : Conn S) (r : Request) → Keeps s c → After (Keeps s) (respond route c r)
  respond-Keeps s c r h =
      sent-After (Keeps s) (record c { server = (route c.server c.session r).1 })
        (write_response r.stream ((route c.server c.session r).0)) (λ o e. h)

  continued-Keeps :
      (s : Session) (c : Conn S) (stream : ℕ) (ended : Bool) (r : Option Request)
      → Keeps s c
      → After (Keeps s) (continued route c stream ended r)
  continued-Keeps s c stream ended none h = tt
  continued-Keeps s c stream ended (some r) h =
      if-After (Keeps s) ended (respond route (record c { pending = removed stream c.pending }) r)
        (goes_on (record c { pending = put stream r c.pending }))
        (respond-Keeps s (record c { pending = removed stream c.pending }) r h) h

  with_body-Keeps :
      (s : Session) (c : Conn S) (stream : ℕ) (payload : Text) (ended : Bool) (r : Option Request)
      → Keeps s c
      → After (Keeps s) (with_body route c stream payload ended r)
  with_body-Keeps s c stream payload ended none h = h
  with_body-Keeps s c stream payload ended (some r) h =
      continued-Keeps s c stream ended (append_request_body r payload) h

  consumed-Keeps :
      (s : Session) (c : Conn S) (payload : Text) → Keeps s c → Keeps s (consumed route c payload)
  consumed-Keeps s c [] h = h
  consumed-Keeps s c (b ∷ payload) h = h

  step-recorded :
      (c : Conn S) (f : Frame) → After (Keeps (recorded_by c.session f)) (step route c f)
  unfolding step
  step-recorded c (settings true new) = refl
  step-recorded c (settings false new) = refl
  step-recorded c (window_update stream increment) = elim (Bool-cases (stream == 0)) [
    | inl whole ↦ rw whole refl
    | inr one ↦ rw one refl
  ]
  step-recorded c (priority stream p) = refl
  step-recorded c (headers f) =
      let s = record_request c.session f in
      if-After (Keeps s) f.truncated (failed _) _ tt (
        if-After (Keeps s) f.ended (respond route (record c { session = s }) (request_from_frame f))
          _ (respond-Keeps s (record c { session = s }) (request_from_frame f) refl) refl)
  step-recorded c (body stream payload ended) =
      with_body-Keeps c.session (consumed route c payload) stream payload ended
        (pending_at stream c.pending) (consumed-Keeps c.session c payload refl)
  step-recorded c (ping true payload) = refl
  step-recorded c (ping false payload) = refl
  step-recorded c go_away = tt
  step-recorded c unknown = refl

abbrev recorded_run : Session → List Frame → Session
recorded_run s [] = s
recorded_run s (f ∷ frames) = recorded_run (recorded_by s f) frames

Runs-recorded :
    {S : Type 0} (route : S → Session → Request → Reply × S) (frames : List Frame) {c d : Conn S}
    → Runs route c frames d
    → d.session ≡ recorded_run c.session frames
Runs-recorded route [] Runs.start = refl
Runs-recorded route (f ∷ frames) {c} (Runs.next {d} e r) =
    Runs-recorded route frames r
    ∙ ap (λ s. recorded_run s frames)
        (goes_on-After (λ x. x.session ≡ recorded_by c.session f) (step route c f) d e
          (step-recorded route c f))

recorded_once : (s : Session) (f : Frame) → s.recorded ≡ true → recorded_by s f ≡ s
unfolding record_settings record_window_update record_priority record_request
recorded_once s (settings true new) h = refl
recorded_once s (settings false new) h = if_true s.recorded _ _ h
recorded_once s (window_update stream increment) h = elim (Bool-cases (stream == 0)) [
  | inl whole ↦ rw whole (if_true s.recorded _ _ h)
  | inr one ↦ rw one refl
]
recorded_once s (priority stream p) h = if_true s.recorded _ _ h
recorded_once s (headers f) h = if_true s.recorded _ _ h
recorded_once s (body stream payload ended) h = refl
recorded_once s (ping ack payload) h = refl
recorded_once s go_away h = refl
recorded_once s unknown h = refl

recorded_run_once :
    (frames : List Frame) (s : Session) → s.recorded ≡ true → recorded_run s frames ≡ s
recorded_run_once [] s h = refl
recorded_run_once (f ∷ frames) s h =
    ap (λ x. recorded_run x frames) (recorded_once s f h) ∙ recorded_run_once frames s h

-- A session that has recorded no request yet.
abbrev pub waiting : List Setting → ℕ → List Priority → Session
waiting new w ps = record {
  recorded = false;
  http2 = record {
    settings = new;
    window_update = w;
    priorities = ps;
    headers = [];
    header_priority = none;
  };
}

recorded_preamble :
    (frames : List Frame) (new : List Setting) (w : ℕ) (ps : List Priority)
    → All (λ f. no_headers f ≡ true) frames
    → recorded_run (waiting new w ps) frames
      ≡ waiting (new ++ settings_in frames) (window_in w frames) (ps ++ priorities_in frames)
unfolding record_settings record_window_update record_priority
recorded_preamble [] new w ps h =
    ap₂ (λ a b. waiting a w b) (sym (append-nil new)) (sym (append-nil ps))
recorded_preamble (settings true more ∷ frames) new w ps (a, h) =
    recorded_preamble frames new w ps h
recorded_preamble (settings false more ∷ frames) new w ps (a, h) =
    recorded_preamble frames (new ++ more) w ps h
    ∙ ap (λ l. waiting l (window_in w frames) (ps ++ priorities_in frames))
        (append_assoc new more (settings_in frames))
recorded_preamble (window_update stream increment ∷ frames) new w ps (a, h) =
    elim (Bool-cases (stream == 0)) [
      | inl whole ↦ rw whole (recorded_preamble frames new increment ps h)
      | inr one ↦ rw one (recorded_preamble frames new w ps h)
    ]
recorded_preamble (priority stream p ∷ frames) new w ps (a, h) =
    recorded_preamble frames new w (ps ++ priority_of stream p ∷ []) h
    ∙ ap (λ l. waiting (new ++ settings_in frames) (window_in w frames) l)
        (append_assoc ps (priority_of stream p ∷ []) (priorities_in frames))
recorded_preamble (headers f ∷ frames) new w ps (a, h) = cc
recorded_preamble (body stream payload ended ∷ frames) new w ps (a, h) =
    recorded_preamble frames new w ps h
recorded_preamble (ping ack payload ∷ frames) new w ps (a, h) = recorded_preamble frames new w ps h
recorded_preamble (go_away ∷ frames) new w ps (a, h) = recorded_preamble frames new w ps h
recorded_preamble (unknown ∷ frames) new w ps (a, h) = recorded_preamble frames new w ps h

recorded_run-append :
    (xs ys : List Frame) (s : Session)
    → recorded_run s (xs ++ ys) ≡ recorded_run (recorded_run s xs) ys
recorded_run-append [] ys s = refl
recorded_run-append (x ∷ xs) ys s = recorded_run-append xs ys (recorded_by s x)

-- What a connection has recorded is the settings, in order, the last window update and the
-- priorities that came before the first request, and the fields of that request in order; what
-- comes behind it, requests included, is not recorded.
pub session-Runs :
    {S : Type 0} (route : S → Session → Request → Reply × S) (before behind : List Frame)
    (f : Headers)
    → (c d : Conn S) → c.session ≡ waiting [] 0 []
    → All (λ g. no_headers g ≡ true) before
    → Runs route c (before ++ headers f ∷ behind) d
    → d.session ≡ record {
      recorded = true;
      http2 = record {
        settings = settings_in before;
        window_update = window_in 0 before;
        priorities = priorities_in before;
        headers = f.fields;
        header_priority =
            if is_set f.priority then some (priority_of f.stream f.priority) else none;
      };
    }
unfolding record_request
session-Runs route before behind f c d new none_ r =
    Runs-recorded route (before ++ headers f ∷ behind) r
    ∙ ap (λ s. recorded_run s (before ++ headers f ∷ behind)) new
    ∙ recorded_run-append before (headers f ∷ behind) (waiting [] 0 [])
    ∙ ap (λ s. recorded_run s (headers f ∷ behind)) (recorded_preamble before [] 0 [] none_)
    ∙ recorded_run_once behind _ refl
