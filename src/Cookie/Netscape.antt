-- ===== src/Cookie/Netscape.antt =====
-- cookie/netscape.go: reading and writing a cookies.txt.
use tls_forge.Base.{
  ℕ, ◌+◌, Bool, true, false, not, ◌&&◌, ◌||◌, List, [], ◌∷◌, ◌++◌, Option, none, some, ltb, ◌==◌,
  if◌then◌else◌, Text, codes, has_prefix, equal_fold, split, join, ℤ, pos, pos_part, decimal_ℤ,
  parse_int, length, drop, trim_left, trim_right, trim_space, scan_lines,
}
use tls_forge.Cookie.{
  Instant, Cookie, Set, File, Result, ok, err, ◌>>=◌, found_or, is_blank, current_version,
  few_fields, bad_expiry, bad_flag, no_name, no_cookies, line_too_long,
}

abbrev pub http_only_prefix : Text
http_only_prefix = codes "#HttpOnly_"

-- The largest line that the scanner takes, `4*1024*1024`.
abbrev pub max_line : ℕ
max_line = 4194304

unfoldable pub looks_netscape : Text → Bool
unfolding trim_left has_prefix
looks_netscape body =
    let trimmed = trim_left (λ c. c == b' ' || c == b'\t' || c == b'\r' || c == b'\n') body in
    not (is_blank trimmed)
    && not (has_prefix trimmed (codes "{"))
    && not (has_prefix trimmed (codes "["))

-- `if expires > 0 { c.Expires = time.Unix(expires, 0).UTC() }`
abbrev pub expiry : ℤ → Option Instant
expiry seconds =
    if ltb 0 (pos_part seconds) then some (record { seconds = seconds; nanos = 0 }) else none

-- Lines that are read are counted from 1; fields past the seventh are not looked at.
unfoldable pub cookie_of : ℕ → Bool → List Text → Result Cookie
cookie_of line http_only (f0 ∷ f1 ∷ f2 ∷ f3 ∷ f4 ∷ f5 ∷ f6 ∷ more) = do
  expires ← found_or (bad_expiry line f4) (parse_int (trim_space f4))
  let include_ = trim_space f1
  if is_blank f5
      then err (no_name line)
      else if not (equal_fold include_ (codes "TRUE")) && not (equal_fold include_ (codes "FALSE"))
      then err (bad_flag line f1)
      else ok (record {
        name = f5;
        value = f6;
        domain =
            if equal_fold include_ (codes "TRUE") && not (has_prefix f0 (codes "."))
            then b'.' ∷ f0
            else f0;
        path = f2;
        secure = equal_fold (trim_space f3) (codes "TRUE");
        http_only = http_only;
        expires = expiry expires;
      })
cookie_of line http_only fields = err (few_fields line (length fields))

abbrev pub one_of : Result Cookie → Result (Option Cookie)
one_of r = r >>= λ c. ok (some c)

-- One round of the loop: `none` is `continue`.
unfoldable pub netscape_line : ℕ → Text → Result (Option Cookie)
netscape_line line raw =
    let text = trim_right (λ c. c == b'\r' || c == b'\n') raw in
    if is_blank (trim_space text)
    then ok none
    else if has_prefix text http_only_prefix
    then one_of (cookie_of line true (split b'\t' (drop (length http_only_prefix) text)))
    else if has_prefix (trim_space text) (codes "#")
    then ok none
    else one_of (cookie_of line false (split b'\t' text))

abbrev pub append_cookie : List Cookie → Option Cookie → List Cookie
append_cookie cookies none = cookies
append_cookie cookies (some c) = cookies ++ c ∷ []

unfoldable pub netscape_loop : ℕ → List Cookie → List (Option Text) → Result (List Cookie)
netscape_loop line cookies [] = ok cookies
netscape_loop line cookies (none ∷ lines) = err line_too_long
netscape_loop line cookies (some raw ∷ lines) = do
  c ← netscape_line line raw
  netscape_loop (line + 1) (append_cookie cookies c) lines

-- The file that is made of the cookies read.
abbrev pub imported : List Cookie → File
imported cookies = record {
  version = current_version;
  sets =
      record {
        id = codes "1";
        note = codes "read from a Netscape cookie file";
        warmed = none;
        cookies = cookies;
      }
      ∷ [];
}

abbrev pub netscape_file : List Cookie → Result File
netscape_file [] = err no_cookies
netscape_file (c ∷ cookies) = ok (imported (c ∷ cookies))

unfoldable pub load_netscape : Text → Result File
load_netscape body = do
  cookies ← netscape_loop 1 [] (scan_lines max_line body)
  netscape_file cookies

abbrev pub upper : Bool → Text
upper true = codes "TRUE"
upper false = codes "FALSE"

abbrev pub unix : Option Instant → ℤ
unix none = pos 0
unix (some t) = t.seconds

abbrev pub path_or_root : Text → Text
path_or_root path = if is_blank path then codes "/" else path

-- The seven fields of a line, without the mark of an HttpOnly cookie.
abbrev pub fields_of : Cookie → List Text
fields_of c =
    c.domain
    ∷ upper (has_prefix c.domain (codes "."))
    ∷ path_or_root c.path
    ∷ upper c.secure
    ∷ decimal_ℤ (unix c.expires)
    ∷ c.name
    ∷ c.value
    ∷ []

abbrev pub mark : Bool → Text
mark true = http_only_prefix
mark false = []

unfoldable pub encode_line : Cookie → Text
encode_line c = mark c.http_only ++ join (codes "\t") (fields_of c)

unfoldable pub encode_lines : List Cookie → Text
encode_lines [] = []
encode_lines (c ∷ cookies) = encode_line c ++ (b'\n' ∷ encode_lines cookies)

abbrev pub title : Text
title = codes "# Netscape HTTP Cookie File"

abbrev pub origin : Text
origin = codes "# Written by tls-forge. Every line is seven tab-separated fields."

unfoldable pub encode_netscape : Set → Text
encode_netscape s = title ++ (b'\n' ∷ (origin ++ (b'\n' ∷ b'\n' ∷ encode_lines s.cookies)))
