-- ===== src/Echo/Http1/Lines.antt =====
-- echo/h1.go: one line written and read.
use tls_forge.Base.{
  ℕ, suc, ◌<◌, Bool, true, false, ◌&&◌, [], ◌∷◌, ◌++◌, append_assoc, Option, some, ◌≡◌, inl, inr,
  refl, ap, sym, ◌∙◌, arith, length, length-append, ltb, ◌==◌, ==_iff, Bool-cases, Option-cases,
  Text, is_free_of, is_free_of-append, cut_text, cut_text-append, trim_right, cons_unless,
}
use tls_forge.Echo.Http1.{Result, ok, read_line, max_line, is_line_end, crlf}

-- What may stand in a line.
abbrev pub is_line : Text → Bool
is_line s = is_free_of 10 s && is_free_of 13 s

cons_unless-kept : (c : ℕ) (s : Text) → is_line_end c ≡ false → cons_unless is_line_end c s ≡ c ∷ s
cons_unless-kept c [] h = rw h refl
cons_unless-kept c (d ∷ s) h = refl

trim_right-cr : (s : Text) → is_line s ≡ true → trim_right is_line_end (s ++ 13 ∷ []) ≡ s
unfolding trim_right is_free_of
trim_right-cr [] h = refl
trim_right-cr (c ∷ s) h = rw (trim_right-cr s (ground arith)) (cons_unless-kept c s (ground arith))

-- A line is read as it was written, with what is behind its end.
pub read_line-crlf :
    (line rest : Text)
    → is_line line ≡ true
    → suc (length line) < max_line
    → read_line (line ++ (crlf ++ rest)) ≡ ok (line, rest)
unfolding read_line
read_line-crlf line rest h short =
    let free : is_free_of 10 (line ++ 13 ∷ []) ≡ true =
      unfold is_free_of in ground (arith, is_free_of-append 10 line (13 ∷ [])) in
    let cut : cut_text 10 (line ++ (crlf ++ rest)) ≡ some (line ++ 13 ∷ [], rest) =
      ap (cut_text 10) (sym (append_assoc line (13 ∷ []) (10 ∷ rest)))
      ∙ cut_text-append 10 (line ++ 13 ∷ []) rest free in
    let fits : ltb (length (line ++ 13 ∷ [])) max_line ≡ true =
      ground (arith, length-append line (13 ∷ [])) in
    rw (cut, fits, trim_right-cr line h) refl

cut_text_sound : (sep : ℕ) (s a b : Text) → cut_text sep s ≡ some (a, b) → s ≡ a ++ sep ∷ b
unfolding cut_text
cut_text_sound sep [] a b e = cc
cut_text_sound sep (c ∷ s) a b e = elim (Bool-cases (c == sep)) [
  | inl here ↦ cc (rw here at e, (==_iff c sep).0 here)
  | inr other ↦ elim (Option-cases (cut_text sep s)) [
    | inl none_ ↦ cc (rw (other, none_) at e)
    | inr ((x, y), some_) ↦
        let whole : ◌≡◌ {A = Option (Text × Text)} (some (c ∷ x, y)) (some (a, b)) =
          rw (other, some_) at e in
        let ih : s ≡ x ++ sep ∷ y = cut_text_sound sep s x y some_ in cc
  ]
]

-- A line that is read takes at least a byte, and leaves the rest of the input.
pub read_line_sound :
    (s line rest : Text)
    → read_line s ≡ ok (line, rest)
    → (taken : Text) × (s ≡ taken ++ rest) × (0 < length taken)
unfolding read_line
read_line_sound s line rest e = elim (Option-cases (cut_text 10 s)) [
  | inl none_ ↦ elim (Bool-cases (ltb (length s) max_line)) [
    | inl short ↦ cc (rw (none_, short) at e)
    | inr long ↦ cc (rw (none_, long) at e)
  ]
  | inr ((x, y), some_) ↦ elim (Bool-cases (ltb (length x) max_line)) [
    | inr long ↦ cc (rw (some_, long) at e)
    | inl short ↦
        let whole : ◌≡◌ {A = Result (Text × Text)} (ok (trim_right is_line_end x, y))
            (ok (line, rest)) =
          rw (some_, short) at e in
        let same : y ≡ rest = cc in
        (
          x ++ 10 ∷ [],
          cut_text_sound 10 s x y some_
              ∙ sym (append_assoc x (10 ∷ []) y)
              ∙ ap (λ t. (x ++ 10 ∷ []) ++ t) same,
          omega (arith, length-append x (10 ∷ [])),
        )
  ]
]
