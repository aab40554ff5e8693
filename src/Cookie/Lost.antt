-- ===== src/Cookie/Lost.antt =====
-- cookie/cookie.go: `Load` on a cookies.txt, from which it trims white space first.
use tls_forge.Base.{
  ℕ, ◌+◌, ◌<◌, false, List, [], ◌∷◌, ◌++◌, some, ◌≡◌, refl, ap, sym, arith, Text, codes, has_prefix,
  join, decimal_ℤ, length, length-append, append_assoc, trim_left, trim_right, trim_right-append,
  trim_space, is_space, scan_lines, scan_lines_last,
}
use tls_forge.Cookie.{Cookie, Set, err, few_fields}
use tls_forge.Cookie.Netscape.{
  max_line, cookie_of, netscape_loop, load_netscape, looks_netscape, upper, unix, path_or_root,
  encode_line, encode_lines, title, origin, encode_netscape,
}
use tls_forge.Cookie.Load.{Json, load, load_text}
use tls_forge.Cookie.Lines.{
  AreFields, AllFreeOf, line_of, line-ne-nil, line_newline, line_return, netscape_line-fields,
}
use tls_forge.Cookie.Written.{IsWritable, written_fields}
use tls_forge.Cookie.RoundTrip.{AllWritable, loop-file, rooted_all}

-- The fields of a line but for the name and the value, and the name.
abbrev five : Cookie → List Text
five c =
    upper (has_prefix c.domain (codes "."))
    ∷ path_or_root c.path
    ∷ upper c.secure
    ∷ decimal_ℤ (unix c.expires)
    ∷ []

abbrev six : Cookie → List Text
six c = five c ++ c.name ∷ []

encode_lines-append :
    (cs : List Cookie) (c : Cookie)
    → encode_lines (cs ++ c ∷ []) ≡ encode_lines cs ++ (encode_line c ++ b'\n' ∷ [])
unfolding encode_lines
encode_lines-append [] c = refl
encode_lines-append (d ∷ cs) c =
    rw (encode_lines-append cs c)
      (sym (append_assoc (encode_line d) (b'\n' ∷ encode_lines cs) (encode_line c ++ b'\n' ∷ [])))

trim_comment :
    (s : Text) (x : ℕ)
    → is_space x ≡ false
    → trim_space (b'#' ∷ (s ++ x ∷ b'\t' ∷ b'\n' ∷ [])) ≡ b'#' ∷ (s ++ x ∷ [])
unfolding trim_space trim_left trim_right
trim_comment s x dark = trim_right-append is_space (b'#' ∷ s) x (b'\t' ∷ b'\n' ∷ []) dark

without_last :
    (sep : ℕ) (t : Text) (ts : List Text) (u v : Text)
    → AllFreeOf sep (t ∷ (ts ++ u ∷ v ∷ []))
    → AllFreeOf sep (t ∷ (ts ++ u ∷ []))
without_last sep t [] u v (a, (b, more)) = (a, (b, tt))
without_last sep t (x ∷ ts) u v (a, b) = (a, without_last sep x ts u v b)

module _ (c : Cookie) (w : IsWritable c) (name : Text) (x : ℕ) (empty : c.value ≡ [])
    (ends : c.name ≡ name ++ x ∷ []) (dark : is_space x ≡ false) where
  -- What is in front of the last byte of the name.
  abbrev front : Text
  front = line_of c.http_only (c.domain ∷ (five c ++ name ∷ []))

  encode_line-front : encode_line c ≡ front ++ x ∷ b'\t' ∷ []
  unfolding encode_line join
  encode_line-front = rw (empty, ends) (simp (append_assoc))

  six-front : line_of c.http_only (c.domain ∷ six c) ≡ front ++ x ∷ []
  unfolding join
  six-front = rw ends (simp (append_assoc))

  six_fields : AreFields c.domain (six c)
  six_fields =
      let all = written_fields c w in
      record {
        head = all.head;
        rest = all.rest;
        first_cons = all.first_cons;
        head_space = all.head_space;
        head_comment = all.head_comment;
        tab_free = without_last b'\t' c.domain (five c) c.name c.value all.tab_free;
        newline_free = without_last b'\n' c.domain (five c) c.name c.value all.newline_free;
        return_free = without_last b'\r' c.domain (five c) c.name c.value all.return_free;
      }

  six_short : length (line_of c.http_only (c.domain ∷ six c)) < max_line
  six_short =
      let short = w.short in
      let all = ap length encode_line-front in
      rw six-front
        (ground (arith, length-append front (x ∷ []), length-append front (x ∷ b'\t' ∷ [])))

  last_line :
      scan_lines max_line (front ++ x ∷ []) ≡ some (line_of c.http_only (c.domain ∷ six c)) ∷ []
  last_line = rw (sym six-front) (
      scan_lines_last max_line (line_of c.http_only (c.domain ∷ six c))
        (line-ne-nil c.domain (six c) six_fields c.http_only)
        (line_newline c.domain (six c) six_fields c.http_only)
        (line_return c.domain (six c) six_fields c.http_only) six_short)

  loop_last :
      (line : ℕ) (read : List Cookie)
      → netscape_loop line read (scan_lines max_line (front ++ x ∷ [])) ≡ err (few_fields line 6)
  unfolding netscape_loop cookie_of
  loop_last line read =
      rw (last_line, netscape_line-fields c.domain (six c) six_fields line c.http_only)

  abbrev above : List Cookie → Text
  above cs = title ++ (b'\n' ∷ (origin ++ (b'\n' ∷ b'\n' ∷ (encode_lines cs ++ front))))

  file-front :
      (s : Set) (cs : List Cookie)
      → s.cookies ≡ cs ++ c ∷ []
      → encode_netscape s ≡ above cs ++ x ∷ b'\t' ∷ b'\n' ∷ []
  unfolding encode_netscape
  file-front s cs e = rw (e, encode_lines-append cs c, encode_line-front) (simp (append_assoc))

  -- `Load` refuses the cookies.txt that `EncodeNetscape` makes of a set whose last cookie has an
  -- empty value and a name that does not end in white space, although each of its cookies is
  -- writable and whatever the JSON decoders are: it finds six fields in the last line.
  pub load_lost :
      (json : Json) (s : Set) (cs : List Cookie)
      → s.cookies ≡ cs ++ c ∷ []
      → AllWritable cs
      → load json (encode_netscape s) ≡ err (few_fields (4 + length cs) 6)
  unfolding load load_text looks_netscape load_netscape
  load_lost json s cs e ws = rw (
    file-front s cs e,
    trim_comment
        (codes " Netscape HTTP Cookie File"
          ++ (b'\n' ∷ (origin ++ (b'\n' ∷ b'\n' ∷ (encode_lines cs ++ front)))))
        x dark,
    append_assoc (encode_lines cs) front (x ∷ []),
    loop-file cs (front ++ x ∷ []) ws,
    loop_last (4 + length cs) (rooted_all cs),
  )
