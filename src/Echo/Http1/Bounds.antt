-- ===== src/Echo/Http1/Bounds.antt =====
-- echo/h1.go: what a request that was read is like, whatever the bytes were.
use tls_forge.Base.{
  ℕ, suc, zero, ◌+◌, ◌≤◌, List, [], ◌∷◌, ◌++◌, map, Option, none, some, ◌≡◌, ◌⊎◌, inl, inr, refl,
  ap, sym, ◌∙◌, arith, length, length-take, take, drop, take-append-drop, leb, ◌==◌, Bool-cases,
  Text, codes, to_lower, cut_text, pos, parse_int, leb→le,
}
use mathlib.Core.Path.{subst}
use tls_forge.Echo.Http1.{
  Error, Result, ok, err, ◌>>=◌, or_fail, read_line, three_parts, Line, line_parts, header_step,
  header_loop, length_loop, read_body, Request, seen_of, read_request, max_headers, max_body,
  malformed_header, malformed_request,
}
use tls_forge.Echo.Http1.Framing.{length_loop_sound, values_of, Framed}

bind-ok {ℓ κ} :
    {A : Type ℓ} {B : Type κ} (r : Result A) (f : A → Result B) (b : B)
    → (r >>= f) ≡ ok b
    → (a : A) × (r ≡ ok a) × (f a ≡ ok b)
bind-ok (ok a) f b e = (a, refl, e)
bind-ok (err x) f b e = cc

abbrev value_or {ℓ} : {A : Type ℓ} → A → Result A → A
value_or d (ok a) = a
value_or d (err e) = d

ok-injective {ℓ} : {A : Type ℓ} (a b : A) → ok a ≡ ok b → a ≡ b
ok-injective a b e = ap (value_or a) e

-- The headers that stand before an empty line, and what is behind that line.
pub data Headed : Text → List Line → Text → Type 0 where
  none_left : {s rest : Text} → read_line s ≡ ok ([], rest) → Headed s [] rest
  one_more :
      {s line s' rest : Text} {parts : Text × Text} {lines : List Line}
      → read_line s ≡ ok (line, s')
      → cut_text b':' line ≡ some parts
      → Headed s' lines rest
      → Headed s (line_parts parts ∷ lines) rest

or_fail-some {ℓ} : {A : Type ℓ} (e : Error) (o : Option A) (a : A) → or_fail e o ≡ ok a → o ≡ some a
or_fail-some e none a h = cc
or_fail-some e (some b) a h = ap some (ok-injective b a h)

header_step_sound :
    (again : Text → Result (List Line × Text)) (count : ℕ) (s line rest : Text) (lines : List Line)
    (end : Text)
    → ((t : Text) (more : List Line) (last : Text)
        → again t ≡ ok (more, last)
        → Headed t more last × (suc count ≤ max_headers → suc count + length more ≤ max_headers))
    → read_line s ≡ ok (line, rest)
    → header_step again count (line, rest) ≡ ok (lines, end)
    → Headed s lines end × (count ≤ max_headers → count + length lines ≤ max_headers)
header_step_sound again count s [] rest lines end ih read e =
    let whole = ok-injective {A = List Line × Text} ([], rest) (lines, end) e in
    let same : rest ≡ end = ap (λ (x : List Line × Text). x.1) whole in
    let nothing : [] ≡ lines = ap (λ (x : List Line × Text). x.0) whole in
    (
      subst (λ (x : List Line × Text). Headed s (x.0) (x.1)) whole (none_left read),
      λ h. omega (arith, ap length nothing),
    )
header_step_sound again count s (c ∷ line) rest lines end ih read e =
    elim (Bool-cases (leb max_headers count)) [
      | inl full ↦ cc (rw full at e)
      | inr room ↦
          let (parts, cut, e') =
            bind-ok (or_fail malformed_header (cut_text b':' (c ∷ line)))
              (λ parts.
                again rest >>= λ (more : List Line × Text). ok (line_parts parts ∷ more.0, more.1))
              (lines, end) (rw room at e) in
          let (more, good, e'') =
            bind-ok (again rest)
              (λ (more : List Line × Text). ok (line_parts parts ∷ more.0, more.1)) (lines, end)
              e' in
          let whole = ok-injective (line_parts parts ∷ more.0, more.1) (lines, end) e'' in
          let all_ : line_parts parts ∷ more.0 ≡ lines = ap (λ (x : List Line × Text). x.0) whole in
          let (headed, few) = ih rest (more.0) (more.1) good in
          (
            subst (λ (x : List Line × Text). Headed s (x.0) (x.1)) whole
                (one_more read (or_fail-some malformed_header (cut_text b':' (c ∷ line)) parts cut)
                  headed),
            λ h. omega (arith, few (ground arith), ap length all_),
          )
    ]

header_loop_sound :
    (fuel count : ℕ) (s : Text) (lines : List Line) (end : Text)
    → header_loop fuel count s ≡ ok (lines, end)
    → Headed s lines end × (count ≤ max_headers → count + length lines ≤ max_headers)
unfolding header_loop
header_loop_sound zero count s lines end e = cc
header_loop_sound (suc fuel) count s lines end e =
    let (first, good, e') =
      bind-ok (read_line s) (header_step (header_loop fuel (suc count)) count) (lines, end) e in
    header_step_sound (header_loop fuel (suc count)) count s (first.0) (first.1) lines end
      (header_loop_sound fuel (suc count)) good e'

abbrev pub BodyOf : Option ℕ → Text → Type 0
BodyOf none body = body ≡ []
BodyOf (some k) body = length body ≡ k

-- A body that was read is what stands next, and what is behind it is left.
read_body_sound :
    (n : Option ℕ) (s body rest : Text)
    → read_body n s ≡ ok (body, rest)
    → (s ≡ body ++ rest) × BodyOf n body
read_body_sound none s body rest e =
    let whole : ◌≡◌ {A = Result (Text × Text)} (ok ([], s)) (ok (body, rest)) = e in
    let left : s ≡ rest = cc in let nothing : body ≡ [] = cc in (rw nothing left, nothing)
read_body_sound (some k) s body rest e = elim (Bool-cases (leb k (length s))) [
  | inr short ↦ elim (Bool-cases (length s == 0)) [
    | inl none_ ↦ cc (rw (short, none_) at e)
    | inr some_ ↦ cc (rw (short, some_) at e)
  ]
  | inl there ↦
      let whole : ◌≡◌ {A = Result (Text × Text)} (ok (take k s, drop k s)) (ok (body, rest)) =
        rw there at e in
      let left : drop k s ≡ rest = cc in
      let same : take k s ≡ body = cc in
      (
        sym (take-append-drop k s) ∙ ap (λ t. take k s ++ t) left ∙ ap (λ t. t ++ rest) same,
        ap length (sym same) ∙ length-take k s (leb→le k (length s) there),
      )
]

-- What an accepted request is like: a line of three parts, headers up to an empty line, a body.
pub record IsRead (s : Text) (r : Request) (rest : Text) : Type 0 where
  pub first : Text
  pub below : Text
  pub behind : Text
  pub lines : List Line
  pub start : read_line s ≡ ok (first, below)
  pub parts : three_parts first ≡ some (r.seen.method, r.seen.path, r.seen.proto)
  pub headed : Headed below lines behind
  pub next : behind ≡ r.body ++ rest
  pub few : length lines ≤ max_headers
  pub names : r.seen.header_names ≡ map (λ (l : Line). l.0) lines
  pub order : r.seen.header_order ≡ map (λ (l : Line). to_lower (l.0)) lines
  pub headers :
      r.seen.headers ≡ map (λ (l : Line). record { name = to_lower (l.0); value = l.1 }) lines
  pub plain : values_of (codes "transfer-encoding") lines ≡ []
  pub framed_ :
      ((values_of (codes "content-length") lines ≡ []) × (r.body ≡ []))
      ⊎ ((value : Text) × (values_of (codes "content-length") lines ≡ value ∷ [])
          × (parse_int value ≡ some (pos (length r.body)))
          × (length r.body ≤ max_body))

Framed-body :
    (n : Option ℕ) (lines : List Line) (body : Text)
    → Framed lines n
    → BodyOf n body
    → ((values_of (codes "content-length") lines ≡ []) × (body ≡ []))
      ⊎ ((value : Text) × (values_of (codes "content-length") lines ≡ value ∷ [])
          × (parse_int value ≡ some (pos (length body)))
          × (length body ≤ max_body))
Framed-body none lines body h e = inl (h, e)
Framed-body (some k) lines body (v, h, z, small) e =
    inr (v, h, z ∙ ap (λ m. some (pos m)) (sym e), omega arith)

no_header_yet :
    (lines : List Line)
    → (0 ≤ max_headers → 0 + length lines ≤ max_headers)
    → length lines ≤ max_headers
no_header_yet lines h = omega (arith, h (omega arith))

-- An accepted request is what the input says: its first line has the three parts, the lines up to
-- the first empty one are its headers, at most a hundred, with their names in order, both as they
-- were spelled and in lower case, and their values, and its body stands next and is followed by
-- what is left. None of the headers is transfer-encoding and at most one is content-length, whose
-- value is the length of the body and within the limit; without one there is no body.
pub read_request-IsRead :
    (s : Text) (r : Request) (rest : Text) → read_request s ≡ ok (r, rest) → IsRead s r rest
unfolding read_request
read_request-IsRead s r rest e =
    let (first, good, e1) = bind-ok (read_line s) _ (r, rest) e in
    let (parts, split_, e2) =
      bind-ok (or_fail malformed_request (three_parts (first.0))) _ (r, rest) e1 in
    let (found, loop, e3) =
      bind-ok (header_loop (suc (length (first.1))) 0 (first.1)) _ (r, rest) e2 in
    let (n, framing, e4) = bind-ok (length_loop none (found.0)) _ (r, rest) e3 in
    let (read, body, e5) = bind-ok (read_body n (found.1)) _ (r, rest) e4 in
    let whole =
      ok-injective (record { seen = seen_of parts (found.0); body = read.0 }, read.1) (r, rest)
        e5 in
    let (headed, few) =
      header_loop_sound (suc (length (first.1))) 0 (first.1) (found.0) (found.1) loop in
    let (plain, framed_) = length_loop_sound (found.0) none n framing in
    let (next, size) = read_body_sound n (found.1) (read.0) (read.1) body in
    subst (λ (x : Request × Text). IsRead s (x.0) (x.1)) whole
      (record {
        first = first.0;
        below = first.1;
        behind = found.1;
        lines = found.0;
        start = good;
        parts = or_fail-some malformed_request (three_parts (first.0)) parts split_;
        headed = headed;
        next = next;
        few = no_header_yet (found.0) few;
        names = refl;
        order = refl;
        headers = refl;
        plain = plain;
        framed_ = Framed-body n (found.0) (read.0) framed_ size;
      })
