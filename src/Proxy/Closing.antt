-- ===== src/Proxy/Closing.antt =====
-- proxy/proxy.go: what `Close` has still to close.
use tls_forge.Base.{ℕ, true, List, [], ◌∷◌, ◌≡◌, ◌⊎◌, inl, inr, refl, arith, ◌==◌, Bool-cases}
use tls_forge.Proxy.Connections.{
  Server, contains_conn, remove, track, forget, close_lock, close_next, Step, handled, forgotten,
  locked, next, Reachable, started, step,
}

contains-remove :
    (c d : ℕ) (conns : List ℕ)
    → contains_conn c (remove d conns) ≡ true
    → contains_conn c conns ≡ true
unfolding remove
contains-remove c d [] h = h
contains-remove c d (e ∷ conns) h = ground (arith, contains-remove c d conns)

-- A registered connection is closed or is in the snapshot.
abbrev pub IsCovered : ℕ → Server → Type 0
IsCovered c s = (contains_conn c s.ended ≡ true) ⊎ (contains_conn c s.snapshot ≡ true)

-- Closing one more connection covers what was covered.
IsCovered-ended :
    (c d : ℕ) (s : Server) → IsCovered c s → IsCovered c (record s { ended = d ∷ s.ended })
IsCovered-ended c d s (inl e) = inl (ground arith)
IsCovered-ended c d s (inr e) = inr e

IsCovered-next :
    (c d : ℕ) (rest : List ℕ) (s : Server)
    → s.snapshot ≡ d ∷ rest
    → IsCovered c s
    → IsCovered c (close_next s d rest)
unfolding close_next
IsCovered-next c d rest s e (inl f) = inl (ground arith)
IsCovered-next c d rest s e (inr f) = elim (Bool-cases (d == c)) [
  | inl same ↦ inl (rw same refl)
  | inr other ↦ inr (rw (e, other) at f)
]

keep :
    {s t : Server}
    → Step s t
    → (c : ℕ) → (s.closed ≡ true → contains_conn c s.conns ≡ true → IsCovered c s)
    → t.closed ≡ true
    → contains_conn c t.conns ≡ true
    → IsCovered c t
unfolding track
keep (handled s d) c before closed there = elim (Bool-cases s.closed) [
  | inl late ↦ rw late (IsCovered-ended c d s (before late (rw late at there)))
  | inr early ↦ cc (rw early at closed)
]
keep (forgotten s d) c before closed there =
    unfold forget in IsCovered-ended c d s (before closed (contains-remove c d s.conns there))
keep (locked s e) c before closed there = unfold close_lock in inr there
keep (next s d rest e) c before closed there =
    IsCovered-next c d rest s e (before (unfold close_next in closed) (unfold close_next in there))

covered :
    {s : Server}
    → Reachable s
    → (c : ℕ) → s.closed ≡ true
    → contains_conn c s.conns ≡ true
    → IsCovered c s
covered started c closed there = cc
covered (step r by_step) c closed there = keep by_step c (covered r c) closed there

-- On a server that is closed, each connection that is registered has its socket closed or is one
-- that `Close` is still going to close: none is left for it to wait on, whatever the order in which
-- connections are accepted, tracked and forgotten and `Close` goes on.
pub conns_covered :
    (s : Server) (c : ℕ)
    → Reachable s
    → s.closed ≡ true
    → contains_conn c s.conns ≡ true
    → (contains_conn c s.ended ≡ true) ⊎ (contains_conn c s.snapshot ≡ true)
conns_covered s c reached closed there = covered reached c closed there
