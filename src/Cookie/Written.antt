-- ===== src/Cookie/Written.antt =====
-- Cookies that a cookies.txt can hold, and reading the line that is written of one.
use tls_forge.Base.{
  ℕ, ◌<◌, ◌^◌, Bool, true, false, not, List, [], ◌∷◌, ◌++◌, Option, none, some, ◌≡◌, refl, ap,
  arith, ◌==◌, Text, codes, has_prefix, equal_fold, is_free_of, pos, decimal, decimal_ℤ, parse_int,
  parse_int-decimal, decimal-digits, is_digit, length, all, All, trim_space, trim_space-none_of,
  none_of, is_space, scan_lines, scan_lines-line,
}
use tls_forge.Cookie.{Instant, Cookie, ok, is_blank}
use tls_forge.Cookie.Lines.{AreFields, netscape_line-fields, line_newline, line_return}
use tls_forge.Cookie.Netscape.{
  max_line, expiry, cookie_of, netscape_line, upper, unix, path_or_root, fields_of, encode_line,
}

-- No tab and no end of line.
abbrev pub IsPlain : Text → Type 0
IsPlain t = (is_free_of b'\t' t ≡ true) × (is_free_of b'\n' t ≡ true) × (is_free_of b'\r' t ≡ true)

-- An expiry that the format can express: none, or whole seconds after 1970.
abbrev pub IsWhole : Option Instant → Type 0
IsWhole none = Unit
IsWhole (some t) = (n : ℕ) × (t ≡ record { seconds = pos n; nanos = 0 }) × (0 < n) × (n < 2 ^ 63)

-- A cookie that a line can hold: a name, and a domain that begins neither with white space nor as
-- a comment does.
pub record IsWritable (c : Cookie) : Type 0 where
  pub name_some : is_blank c.name ≡ false
  pub domain_head : ℕ
  pub domain_rest : Text
  pub domain_cons : c.domain ≡ domain_head ∷ domain_rest
  pub head_space : is_space domain_head ≡ false
  pub head_comment : (domain_head == b'#') ≡ false
  pub domain_plain : IsPlain c.domain
  pub path_plain : IsPlain c.path
  pub name_plain : IsPlain c.name
  pub value_plain : IsPlain c.value
  pub whole : IsWhole c.expires
  pub short : length (encode_line c) < max_line

-- What reading makes of it: an empty path is written as the root.
abbrev pub rooted : Cookie → Cookie
rooted c = record c { path = path_or_root c.path }

abbrev pub tail_fields : Cookie → List Text
tail_fields c =
    upper (has_prefix c.domain (codes "."))
    ∷ path_or_root c.path
    ∷ upper c.secure
    ∷ decimal_ℤ (unix c.expires)
    ∷ c.name
    ∷ c.value
    ∷ []

digits-plain :
    (sep : ℕ) (t : Text) → is_digit sep ≡ false → all is_digit t ≡ true → is_free_of sep t ≡ true
unfolding is_free_of
digits-plain sep [] d h = refl
digits-plain sep (c ∷ t) d h = ground (arith, digits-plain sep t)

digits-none_of_space : (t : Text) → all is_digit t ≡ true → none_of is_space t ≡ true
digits-none_of_space [] h = refl
digits-none_of_space (c ∷ t) h = ground (arith, digits-none_of_space t)

-- What is written for an expiry.
unix-whole :
    (e : Option Instant)
    → IsWhole e
    → (n : ℕ) × (unix e ≡ pos n) × (n < 2 ^ 63) × (expiry (pos n) ≡ e)
unix-whole none w = (0, refl, omega arith, refl)
unix-whole (some t) (n, e, positive, small) =
    (n, ap (λ (x : Instant). x.seconds) e, small, ground arith)

read_true : (b : Bool) → equal_fold (trim_space (upper b)) (codes "TRUE") ≡ b
unfolding equal_fold trim_space
read_true true = refl
read_true false = refl

read_false : (b : Bool) → equal_fold (trim_space (upper b)) (codes "FALSE") ≡ not b
unfolding equal_fold trim_space
read_false true = refl
read_false false = refl

read_expiry : (n : ℕ) → n < 2 ^ 63 → parse_int (trim_space (decimal_ℤ (pos n))) ≡ some (pos n)
unfolding decimal_ℤ
read_expiry n small =
    rw (trim_space-none_of (decimal n) (digits-none_of_space (decimal n) (decimal-digits n)))
      (parse_int-decimal n small)

module _ (c : Cookie) (w : IsWritable c) where
  cookie_of-fields : (line : ℕ) → cookie_of line c.http_only (fields_of c) ≡ ok (rooted c)
  unfolding cookie_of
  cookie_of-fields line =
      let (n, e, small, back) = unix-whole c.expires w.whole in
      rw
        (
          e,
          read_expiry n small,
          w.name_some,
          read_true (has_prefix c.domain (codes ".")),
          read_false (has_prefix c.domain (codes ".")),
          read_true c.secure,
          back,
        )
        (ground arith)

  -- Each field of the line is free of a separator that is no digit and not in TRUE or FALSE.
  line_free :
      (sep : ℕ)
      → is_digit sep ≡ false
      → (is_free_of sep (codes "TRUEFALSE/") ≡ true)
      → is_free_of sep c.domain ≡ true
      → is_free_of sep c.path ≡ true
      → is_free_of sep c.name ≡ true
      → is_free_of sep c.value ≡ true
      → All (λ t. is_free_of sep t ≡ true) (fields_of c)
  unfolding is_free_of decimal_ℤ
  line_free sep d u fd fp fn fv =
      let (n, e, small, back) = unix-whole c.expires w.whole in
      (
        fd,
        (
          ground arith,
          (
            ground arith,
            (
              ground arith,
              (rw e (digits-plain sep (decimal n) d (decimal-digits n)), (fn, (fv, tt))),
            ),
          ),
        ),
      )

  pub written_fields : AreFields c.domain (tail_fields c)
  unfolding is_free_of
  written_fields = record {
    head = w.domain_head;
    rest = w.domain_rest;
    first_cons = w.domain_cons;
    head_space = w.head_space;
    head_comment = w.head_comment;
    tab_free =
        line_free b'\t' refl refl w.domain_plain.0 w.path_plain.0 w.name_plain.0 w.value_plain.0;
    newline_free =
        line_free b'\n' refl refl w.domain_plain.1 w.path_plain.1 w.name_plain.1 w.value_plain.1;
    return_free =
        line_free b'\r' refl refl w.domain_plain.2 w.path_plain.2 w.name_plain.2 w.value_plain.2;
  }

  pub netscape_line-encode : (line : ℕ) → netscape_line line (encode_line c) ≡ ok (some (rooted c))
  unfolding encode_line
  netscape_line-encode line = rw (
    netscape_line-fields c.domain (tail_fields c) written_fields line c.http_only,
    cookie_of-fields line,
  )

  pub scan_lines-encode :
      (rest : Text)
      → scan_lines max_line (encode_line c ++ b'\n' ∷ rest)
        ≡ some (encode_line c) ∷ scan_lines max_line rest
  unfolding encode_line
  scan_lines-encode rest =
      scan_lines-line max_line (encode_line c) rest
        (line_newline c.domain (tail_fields c) written_fields c.http_only)
        (line_return c.domain (tail_fields c) written_fields c.http_only) (w.short)
