-- ===== src/Echo/Navigation.antt =====
-- echo/server.go: which session a navigation, a report and a capture belong to. The server's
-- lock makes each operation one step. A session is a number; what it knows of itself is at its
-- place in `sessions`. The query of a path comes parsed, and JSON is a parameter.
pub mod Tokens
pub mod Filed
pub mod Issued
pub mod Queue
use tls_forge.Base.{
  ℕ, zero, suc, ◌+◌, ◌-◌, ◌/◌, ◌%◌, ◌^◌, Bool, true, false, List, [], ◌∷◌, ◌++◌, Option, none, some,
  ltb, ◌==◌, if◌then◌else◌, Text, text_eq, codes, ◌≡◌,
}
use tls_forge.Capture.{Http1, Navigator}
use tls_forge.Profile.{is_empty}

pub record Session : Type 0 where
  pub http1 : Option Http1
  pub navigator : Option Navigator
  pub navigation : Bool
  pub reported : Bool
  pub token : Text

-- The part of `Server` that files sessions. `ready` is closed at each capture that is finished:
-- the captures that wait are `completed`.
pub record Server : Type 0 where
  pub sessions : ℕ → Session
  pub navigations : List ℕ
  pub by_id : List (Text × ℕ)
  pub next : ℕ
  pub completed : List ℕ

abbrev pub digit36 : ℕ → ℕ
digit36 d = if ltb d 10 then b'0' + d else b'a' + d - 10

-- `strconv.FormatUint(n, 36)`
unfoldable pub base36_fuel : ℕ → ℕ → Text
base36_fuel zero n = []
base36_fuel (suc fuel) n =
    let more = base36_fuel fuel (n / 36) ++ digit36 (n % 36) ∷ [] in
    if ltb n 36 then digit36 n ∷ [] else more

unfoldable pub base36 : ℕ → Text
base36 n = base36_fuel (suc n) n

unfoldable pub session_at : Text → List (Text × ℕ) → Option ℕ
session_at token [] = none
session_at token ((t, s) ∷ by_id) =
    let rest = session_at token by_id in if text_eq t token then some s else rest

abbrev pub changed : (ℕ → Session) → ℕ → Session → ℕ → Session
changed sessions s new k = if k == s then new else sessions k

-- A session becomes a navigation with the token of number `n`.
abbrev pub issued : Server → ℕ → ℕ → Text × Server
issued v s n = (
  base36 n,
  record {
    sessions = changed v.sessions s (record (v.sessions s) { navigation = true; token = base36 n });
    navigations = v.navigations ++ s ∷ [];
    by_id = (base36 n, s) ∷ v.by_id;
    next = n;
    completed = v.completed;
  },
)

-- The counter has 64 bits.
unfoldable pub issue : Server → ℕ → Text × Server
issue v s = issued v s ((v.next + 1) % 2 ^ 64)

abbrev pub known : Server → Text → Option ℕ → Option (Text × Server)
known v token none = none
known v token (some s) = some (token, v)

-- `none` is the error for a token that is not known.
unfoldable pub set_navigation : Server → ℕ → Text → Option (Text × Server)
set_navigation v s token =
    if (v.sessions s).navigation
    then some ((v.sessions s).token, v)
    else if is_empty token
    then some (issue v s)
    else known v token (session_at token v.by_id)

abbrev pub with_session : Server → ℕ → Session → Server
with_session v s new = record v { sessions = changed v.sessions s new }

abbrev pub attached : Server → Http1 → Option ℕ → Option Server
attached v http1 none = none
attached v http1 (some s) = some (with_session v s (record (v.sessions s) { http1 = some http1 }))

unfoldable pub attach_http1 : Server → Text → Http1 → Option Server
attach_http1 v token http1 = attached v http1 (session_at token v.by_id)

abbrev pub report : Server → ℕ → ℕ × Server
report v s = (s, with_session v s (record (v.sessions s) { reported = true }))

abbrev pub reported_at : Server → Option ℕ → Option (ℕ × Server)
reported_at v none = none
reported_at v (some s) = some (report v s)

-- The session that a report belongs to, by its token or the session that brought it.
unfoldable pub capture_session : Server → Text → ℕ → Option (ℕ × Server)
capture_session v token fallback =
    if is_empty token
    then (if (v.sessions fallback).navigation
        then some (report v fallback)
        else some (report ((issue v fallback).1) fallback))
    else reported_at v (session_at token v.by_id)

unfoldable pub complete : Server → ℕ → Server
complete v s = record v { completed = v.completed ++ s ∷ [] }

-- `Await` where it does not wait: the oldest capture that is finished, which is taken.
abbrev pub taken : Server → List ℕ → Option (ℕ × Server)
taken v [] = none
taken v (s ∷ completed) = some (s, record v { completed = completed })

unfoldable pub await : Server → Option (ℕ × Server)
await v = taken v v.completed

-- What is asked for: a path, and what its query says.
pub record Asked : Type 0 where
  pub path : Text
  pub navigation : Text
  pub content : Text

pub data Answer : Type 0 where
  page : (token : Text) → Answer
  capture_of : (session : ℕ) → Answer
  bad_request not_found : Answer

abbrev pub paged : Server → Option (Text × Server) → Answer × Server
paged v none = (bad_request, v)
paged v (some (token, w)) = (page token, w)

abbrev pub collected : Server → Navigator → Option (ℕ × Server) → Answer × Server
collected v n none = (bad_request, v)
collected v n (some (s, w)) =
    (capture_of s, complete (with_session w s (record (w.sessions s) { navigator = some n })) s)

abbrev pub collect : Server → ℕ → Asked → Option Navigator → Answer × Server
collect v s q none = (bad_request, v)
collect v s q (some n) = collected v n (capture_session v q.navigation s)

module _ (unmarshal : Text → Option Navigator) where
  unfoldable pub route : Server → ℕ → Asked → Answer × Server
  route v s q =
      if text_eq q.path (codes "/")
      then paged v (set_navigation v s q.navigation)
      else if text_eq q.path (codes "/api/all")
      then (capture_of s, v)
      else if text_eq q.path (codes "/collect")
      then collect v s q (unmarshal q.content)
      else (not_found, v)

  -- The steps that a server takes, in any order.
  pub data Step : Server → Server → Type 0 where
    routed : (v : Server) (s : ℕ) (q : Asked) → Step v ((route v s q).1)
    attached_ :
        (v w : Server) (token : Text) (http1 : Http1)
        → attach_http1 v token http1 ≡ some w
        → Step v w
    completed_ : (v : Server) (s : ℕ) → Step v (complete v s)
    awaited : (v w : Server) (s : ℕ) → await v ≡ some (s, w) → Step v w

  pub data Steps : Server → Server → Type 0 where
    done : {v : Server} → Steps v v
    step : {u v w : Server} → Step u v → Steps v w → Steps u w

-- A server that was just started.
abbrev pub started : Server
started = record {
  sessions = λ s. record {
    http1 = none;
    navigator = none;
    navigation = false;
    reported = false;
    token = [];
  };
  navigations = [];
  by_id = [];
  next = 0;
  completed = [];
}
