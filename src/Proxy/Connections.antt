-- ===== src/Proxy/Connections.antt =====
-- proxy/proxy.go: the connections that a server has open, and its being closed. Each of `track`,
-- `forget` and the part of `Close` under its lock is one step, as the lock makes it; the steps of
-- different goroutines come in any order. A connection is a number that is used once.
use tls_forge.Base.{ℕ, Bool, true, false, List, [], ◌∷◌, ◌≡◌, ◌==◌, if◌then◌else◌, any}

-- `conns` and `closed`; the connections of the snapshot that `Close` has still to close; and those
-- whose socket is closed.
pub record Server : Type 0 where
  pub conns : List ℕ
  pub closed : Bool
  pub snapshot : List ℕ
  pub ended : List ℕ

abbrev pub contains_conn : ℕ → List ℕ → Bool
contains_conn c conns = any (λ d. d == c) conns

unfoldable pub remove : ℕ → List ℕ → List ℕ
remove c [] = []
remove c (d ∷ conns) = let rest = remove c conns in if d == c then rest else d ∷ rest

abbrev pub start : Server
start = record { conns = []; closed = false; snapshot = []; ended = [] }

-- The answer, and the server after it.
unfoldable pub track : Server → ℕ → Bool × Server
track s c = if s.closed then (false, s) else (true, record s { conns = c ∷ s.conns })

unfoldable pub forget : Server → ℕ → Server
unfolding remove
forget s c = record s { conns = remove c s.conns; ended = c ∷ s.ended }

-- What `handle` does first: a connection that comes too late is closed at once.
abbrev pub admitted : ℕ → Bool × Server → Server
admitted c (true, s) = s
admitted c (false, s) = record s { ended = c ∷ s.ended }

-- `closed` is set and the snapshot is taken under one lock.
unfoldable pub close_lock : Server → Server
close_lock s = record s { closed = true; snapshot = s.conns }

-- One round of the loop of `Close`.
unfoldable pub close_next : Server → ℕ → List ℕ → Server
close_next s c rest = record s { snapshot = rest; ended = c ∷ s.ended }

pub data Step : Server → Server → Type 0 where
  handled : (s : Server) (c : ℕ) → Step s (admitted c (track s c))
  forgotten : (s : Server) (c : ℕ) → Step s (forget s c)
  locked : (s : Server) → s.closed ≡ false → Step s (close_lock s)
  next : (s : Server) (c : ℕ) (rest : List ℕ) → s.snapshot ≡ c ∷ rest → Step s (close_next s c rest)

pub data Reachable : Server → Type 0 where
  started : Reachable start
  step : {s t : Server} → Reachable s → Step s t → Reachable t
