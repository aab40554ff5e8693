-- ===== src/Echo/Http2/After.antt =====
-- echo/h2.go: what holds of a connection after a frame, and after a run of frames.
use mathlib.Core.Path.{subst}
use tls_forge.Base.{
  List, [], ◌∷◌, ◌++◌, Option, none, some, Bool, true, false, if◌then◌else◌, ◌≡◌, refl,
}
use tls_forge.Echo.Http2.{
  Frame, Session, Request, Reply, Conn, Next, goes_on, at_end, failed, Runs, Out, sent, wrote,
}

-- What holds of a connection that goes on.
abbrev pub After : {S : Type 0} → (Conn S → Type 0) → Next S → Type 0
After P (goes_on c) = P c
After P (at_end c) = Unit
After P (failed e) = Unit

module _ {S : Type 0} where
  pub goes_on-After :
      (P : Conn S → Type 0) (n : Next S) (d : Conn S) → n ≡ goes_on d → After P n → P d
  goes_on-After P n d e h = subst (After P) e h

  pub sent-After :
      (P : Conn S → Type 0) (c : Conn S) (out : Option (List Out))
      → ((o : List Out) → out ≡ some o → P (wrote c o))
      → After P (sent c out)
  sent-After P c none h = tt
  sent-After P c (some o) h = h o refl

  pub if-After :
      (P : Conn S → Type 0) (b : Bool) (x y : Next S)
      → After P x
      → After P y
      → After P (if b then x else y)
  if-After P true x y h k = h
  if-After P false x y h k = k

module _ {S : Type 0} (route : S → Session → Request → Reply × S) where
  -- A run is one run after another.
  pub Runs-append :
      (xs ys : List Frame) {c e : Conn S}
      → Runs route c (xs ++ ys) e
      → (d : Conn S) × Runs route c xs d × Runs route d ys e
  Runs-append [] ys {c} r = (c, Runs.start, r)
  Runs-append (x ∷ xs) ys (Runs.next {d} e r) =
      let (m, first, rest) = Runs-append xs ys r in (m, Runs.next e first, rest)
