-- ===== src/Cookie/RoundTrip.antt =====
-- cookie/netscape.go: `loadNetscape` on what `EncodeNetscape` gives.
use tls_forge.Base.{
  ℕ, ◌+◌, List, [], ◌∷◌, ◌++◌, Option, some, ◌≡◌, ◌≢◌, refl, ap, sym, arith, Text, has_prefix,
  is_free_of, length, trim_right, trim_space, scan_lines, scan_lines-line, scan_lines-nil,
  append_assoc, append-nil,
}
use tls_forge.Cookie.{Cookie, Set, ok}
use tls_forge.Cookie.Netscape.{
  max_line, netscape_line, netscape_loop, netscape_file, imported, load_netscape, encode_line,
  encode_lines, title, origin, encode_netscape,
}
use tls_forge.Cookie.Written.{IsWritable, rooted, netscape_line-encode, scan_lines-encode}

-- Every cookie of a list can be written.
abbrev pub AllWritable : List Cookie → Type 0
AllWritable [] = Unit
AllWritable (c ∷ cookies) = IsWritable c × AllWritable cookies

pub rooted_all : List Cookie → List Cookie
rooted_all [] = []
rooted_all (c ∷ cookies) = rooted c ∷ rooted_all cookies

-- The loop takes the lines of the cookies and goes on behind them.
pub loop-encode :
    (line : ℕ) (read cookies : List Cookie) (rest : Text)
    → AllWritable cookies
    → netscape_loop line read (scan_lines max_line (encode_lines cookies ++ rest))
      ≡ netscape_loop
          (line + length cookies)
          (read ++ rooted_all cookies)
          (scan_lines max_line rest)
unfolding netscape_loop encode_lines rooted_all
loop-encode line read [] rest w =
    rw (append-nil read) (ap (λ n. netscape_loop n read (scan_lines max_line rest)) (omega arith))
loop-encode line read (c ∷ cookies) rest (w, ws) =
    rw
      (
        append_assoc (encode_line c) (b'\n' ∷ encode_lines cookies) rest,
        scan_lines-encode c w (encode_lines cookies ++ rest),
        netscape_line-encode c w line,
        loop-encode (line + 1) (read ++ rooted c ∷ []) cookies rest ws,
        append_assoc read (rooted c ∷ []) (rooted_all cookies),
      )
      (ap (λ n. netscape_loop n (read ++ rooted c ∷ rooted_all cookies) (scan_lines max_line rest))
        (omega arith))

heading :
    (rest : Text)
    → scan_lines max_line (title ++ (b'\n' ∷ (origin ++ (b'\n' ∷ b'\n' ∷ rest))))
      ≡ some title ∷ some origin ∷ some [] ∷ scan_lines max_line rest
unfolding is_free_of
heading rest = rw (
  scan_lines-line max_line title (origin ++ (b'\n' ∷ b'\n' ∷ rest)) refl refl (omega arith),
  scan_lines-line max_line origin (b'\n' ∷ rest) refl refl (omega arith),
  scan_lines-line max_line [] rest refl refl (omega arith),
)

netscape_file-cons :
    (cookies : List Cookie) → cookies ≢ [] → netscape_file cookies ≡ ok (imported cookies)
netscape_file-cons [] some_ = absurd (some_ refl)
netscape_file-cons (c ∷ cookies) some_ = refl

rooted_all-cons : (cookies : List Cookie) → cookies ≢ [] → rooted_all cookies ≢ []
unfolding rooted_all
rooted_all-cons [] some_ e = some_ refl
rooted_all-cons (c ∷ cookies) some_ e = cc

-- The three lines of the heading are passed over.
loop-heading :
    (rest : List (Option Text))
    → netscape_loop 1 [] (some title ∷ some origin ∷ some [] ∷ rest) ≡ netscape_loop 4 [] rest
unfolding netscape_loop netscape_line trim_space trim_right has_prefix
loop-heading rest = refl

pub loop-file :
    (cookies : List Cookie) (rest : Text)
    → AllWritable cookies
    → netscape_loop 1 [] (
        scan_lines max_line
          (title ++ (b'\n' ∷ (origin ++ (b'\n' ∷ b'\n' ∷ (encode_lines cookies ++ rest))))))
      ≡ netscape_loop (4 + length cookies) (rooted_all cookies) (scan_lines max_line rest)
loop-file cookies rest w =
    rw
      (
        heading (encode_lines cookies ++ rest),
        loop-heading (scan_lines max_line (encode_lines cookies ++ rest)),
      )
      (loop-encode 4 [] cookies rest w)

-- A set that has cookies, each of them writable, is read back from the cookies.txt that
-- `EncodeNetscape` makes of it: the file has the one set "1" with the same cookies in the same
-- order, all their fields included, except that an empty path has become the root.
pub load_netscape-encode :
    (s : Set)
    → s.cookies ≢ []
    → AllWritable s.cookies
    → load_netscape (encode_netscape s) ≡ ok (imported (rooted_all s.cookies))
unfolding load_netscape encode_netscape netscape_loop
load_netscape-encode s some_ w = rw (
  sym (append-nil (encode_lines s.cookies)),
  loop-file s.cookies [] w,
  scan_lines-nil max_line,
  netscape_file-cons (rooted_all s.cookies) (rooted_all-cons s.cookies some_),
)
