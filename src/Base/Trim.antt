-- ===== src/Base/Trim.antt =====
-- `strings.TrimSpace`, `TrimLeft`, `TrimRight`, `Cut` and the lines of a text. White space is that
-- of ASCII, as letter case is.
use tls_forge.Base.Strings.{Text, split, is_free_of, onto_first, split-append_sep, split-free}
use tls_forge.Base.Lists.{length, all}
use tls_forge.Base.Tests.{leb, ◌==◌, if◌then◌else◌, Bool-cases}
use Prim.Native.Nat.{ℕ, ◌<◌}
use mathlib.Core.Path.{◌≡◌, refl, ap}
use mathlib.Core.Bool.{Bool, true, false, not, ◌&&◌, ◌||◌}
use mathlib.Core.List.{List, [], ◌∷◌, ◌++◌}
use mathlib.Core.Logic.{inl, inr, ◌≢◌}
use mathlib.Core.Option.{Option, none, some}
use native.Mathlib.Omega.{arith}

abbrev pub is_space : ℕ → Bool
is_space c = c == b' ' || leb 9 c && leb c 13

unfoldable pub trim_left : (ℕ → Bool) → Text → Text
trim_left p [] = []
trim_left p (c ∷ s) = let rest = trim_left p s in if p c then rest else c ∷ s

-- Nothing of a text that is all trimmed, or the byte and what is left behind it.
abbrev pub cons_unless : (ℕ → Bool) → ℕ → Text → Text
cons_unless p c [] = if p c then [] else c ∷ []
cons_unless p c (d ∷ s) = c ∷ d ∷ s

unfoldable pub trim_right : (ℕ → Bool) → Text → Text
trim_right p [] = []
trim_right p (c ∷ s) = cons_unless p c (trim_right p s)

unfoldable pub trim_space : Text → Text
unfolding trim_left trim_right
trim_space s = trim_right is_space (trim_left is_space s)

-- `strings.Cut` at a separator of one byte: what is before it and what is behind it.
abbrev pub before : ℕ → Option (Text × Text) → Option (Text × Text)
before c none = none
before c (some (a, b)) = some (c ∷ a, b)

unfoldable pub cut_text : ℕ → Text → Option (Text × Text)
cut_text sep [] = none
cut_text sep (c ∷ s) =
    let rest = before c (cut_text sep s) in if c == sep then some ([], s) else rest

-- No byte of the text passes the test.
abbrev pub none_of : (ℕ → Bool) → Text → Bool
none_of p s = all (λ c. not (p c)) s

pub trim_left-none_of : (p : ℕ → Bool) (s : Text) → none_of p s ≡ true → trim_left p s ≡ s
unfolding trim_left
trim_left-none_of p [] h = refl
trim_left-none_of p (c ∷ s) h = ground arith

pub trim_right-none_of : (p : ℕ → Bool) (s : Text) → none_of p s ≡ true → trim_right p s ≡ s
unfolding trim_right
trim_right-none_of p [] h = refl
trim_right-none_of p (c ∷ []) h = ground arith
trim_right-none_of p (c ∷ d ∷ s) h = rw (trim_right-none_of p (d ∷ s) (ground arith))

cons_unless-keep : (p : ℕ → Bool) (c : ℕ) (s : Text) → p c ≡ false → cons_unless p c s ≡ c ∷ s
cons_unless-keep p c [] h = rw h
cons_unless-keep p c (d ∷ s) h = refl

cons_unless-append :
    (p : ℕ → Bool) (d : ℕ) (s : Text) (c : ℕ) (t : Text)
    → cons_unless p d (s ++ c ∷ t) ≡ d ∷ (s ++ c ∷ t)
cons_unless-append p d [] c t = refl
cons_unless-append p d (x ∷ s) c t = refl

-- Trimming from the right stops at a byte that is kept.
pub trim_right-append :
    (p : ℕ → Bool) (s : Text) (c : ℕ) (t : Text)
    → p c ≡ false
    → trim_right p (s ++ c ∷ t) ≡ s ++ (c ∷ trim_right p t)
unfolding trim_right
trim_right-append p [] c t h = cons_unless-keep p c (trim_right p t) h
trim_right-append p (d ∷ s) c t h =
    rw (trim_right-append p s c t h) (cons_unless-append p d s c (trim_right p t))

pub trim_space-none_of : (s : Text) → none_of is_space s ≡ true → trim_space s ≡ s
unfolding trim_space
trim_space-none_of s h = rw (trim_left-none_of is_space s h) (trim_right-none_of is_space s h)

pub cut_text-append :
    (sep : ℕ) (a b : Text) → is_free_of sep a ≡ true → cut_text sep (a ++ sep ∷ b) ≡ some (a, b)
unfolding cut_text is_free_of
cut_text-append sep [] b h = ground arith
cut_text-append sep (c ∷ a) b h = ground (arith, cut_text-append sep a b)

-- A `bufio.Scanner` with a limit on a line: `none` is the error at a line that is too long, after
-- which a scanner gives nothing more. An end of line goes, with one carriage return before it,
-- and the text behind the last end of line is a line only if there is any.
unfoldable pub drop_cr : Text → Text
drop_cr [] = []
drop_cr (c ∷ []) = if c == b'\r' then [] else c ∷ []
drop_cr (c ∷ d ∷ s) = c ∷ drop_cr (d ∷ s)

abbrev pub scanned : ℕ → Text → Option Text
scanned limit piece = if leb limit (length piece) then none else some (drop_cr piece)

unfoldable pub scan_pieces : ℕ → List Text → List (Option Text)
unfolding drop_cr
scan_pieces limit [] = []
scan_pieces limit ([] ∷ []) = []
scan_pieces limit ((c ∷ s) ∷ []) = scanned limit (c ∷ s) ∷ []
scan_pieces limit (piece ∷ more ∷ rest) = scanned limit piece ∷ scan_pieces limit (more ∷ rest)

unfoldable pub scan_lines : ℕ → Text → List (Option Text)
unfolding scan_pieces split
scan_lines limit body = scan_pieces limit (split b'\n' body)

drop_cr-none_of : (s : Text) → is_free_of b'\r' s ≡ true → drop_cr s ≡ s
unfolding drop_cr is_free_of
drop_cr-none_of [] h = refl
drop_cr-none_of (c ∷ []) h = ground arith
drop_cr-none_of (c ∷ d ∷ s) h = ap (◌∷◌ c) (drop_cr-none_of (d ∷ s) (ground arith))

scan_pieces-cons :
    (limit : ℕ) (piece : Text) (rest : List Text)
    → rest ≢ []
    → scan_pieces limit (piece ∷ rest) ≡ scanned limit piece ∷ scan_pieces limit rest
unfolding scan_pieces
scan_pieces-cons limit piece [] h = absurd (h refl)
scan_pieces-cons limit [] (more ∷ rest) h = refl
scan_pieces-cons limit (c ∷ s) (more ∷ rest) h = refl

split-ne-nil : (sep : ℕ) (s : Text) → split sep s ≢ []
unfolding split
split-ne-nil sep [] e = cc
split-ne-nil sep (c ∷ s) e = elim (Bool-cases (c == sep)) [
  | inl same ↦ cc (rw same at e)
  | inr other ↦ onto_first-ne-nil c (split sep s) (rw other at e)
]
  where
    onto_first-ne-nil : (d : ℕ) (ts : List Text) → onto_first d ts ≢ []
    onto_first-ne-nil d [] f = cc
    onto_first-ne-nil d (t ∷ ts) f = cc

-- The first line of a text, and the scanner on what is behind it.
pub scan_lines-line :
    (limit : ℕ) (line rest : Text)
    → is_free_of b'\n' line ≡ true
    → is_free_of b'\r' line ≡ true
    → length line < limit
    → scan_lines limit (line ++ b'\n' ∷ rest) ≡ some line ∷ scan_lines limit rest
unfolding scan_lines
scan_lines-line limit line rest n r h =
    rw
      (
        split-append_sep b'\n' line rest n,
        scan_pieces-cons limit line (split b'\n' rest) (split-ne-nil b'\n' rest),
      )
      (ground (arith, drop_cr-none_of line r))

-- A last line with no end of line behind it.
pub scan_lines_last :
    (limit : ℕ) (line : Text)
    → line ≢ []
    → is_free_of b'\n' line ≡ true
    → is_free_of b'\r' line ≡ true
    → length line < limit
    → scan_lines limit line ≡ some line ∷ []
unfolding scan_lines
scan_lines_last limit [] some_ n r h = absurd (some_ refl)
scan_lines_last limit (c ∷ line) some_ n r h =
    rw (split-free b'\n' (c ∷ line) n)
      (unfold scan_pieces in ground (arith, drop_cr-none_of (c ∷ line) r))

pub scan_lines-nil : (limit : ℕ) → scan_lines limit [] ≡ []
unfolding scan_lines
scan_lines-nil limit = refl

-- A text that begins with no white space keeps its first byte when it is trimmed.
pub trim_space-head :
    (c : ℕ) (s : Text) → is_space c ≡ false → (t : Text) × (trim_space (c ∷ s) ≡ c ∷ t)
unfolding trim_space trim_left trim_right
trim_space-head c s h =
    (trim_right is_space s, rw h (cons_unless-keep is_space c (trim_right is_space s) h))

pub trim_right-line :
    (s : Text)
    → is_free_of b'\n' s ≡ true
    → is_free_of b'\r' s ≡ true
    → trim_right (λ c. c == b'\r' || c == b'\n') s ≡ s
unfolding trim_right is_free_of
trim_right-line [] n r = refl
trim_right-line (c ∷ s) n r =
    rw (trim_right-line s (ground arith) (ground arith))
      (cons_unless-keep (λ d. d == b'\r' || d == b'\n') c s (ground arith))
