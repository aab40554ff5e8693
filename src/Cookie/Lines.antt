-- ===== src/Cookie/Lines.antt =====
-- Reading one line of a cookies.txt, whatever fields it has.
use tls_forge.Base.{
  ℕ, Bool, true, false, List, [], ◌∷◌, ◌++◌, ◌≡◌, ◌≢◌, refl, ap, ◌∙◌, arith, ◌==◌, Text, codes,
  has_prefix, split, split-join, join, is_free_of, drop-append, All, trim_space, is_space,
  is_free_of-append, is_free_of-join, has_prefix-append, trim_space-head, trim_right-line,
}
use tls_forge.Cookie.Netscape.{http_only_prefix, cookie_of, one_of, netscape_line, mark}

-- A line that does not begin with a number sign begins with no mark and no comment.
head-no_prefix : (d : ℕ) (s p : Text) → (d == b'#') ≡ false → has_prefix (d ∷ s) (b'#' ∷ p) ≡ false
unfolding has_prefix
head-no_prefix d s p h = rw h

abbrev pub AllFreeOf : ℕ → List Text → Type 0
AllFreeOf sep fields = All (λ t. is_free_of sep t ≡ true) fields

-- Fields without a tab or an end of line, the first of which begins neither with white space nor
-- with a number sign.
pub record AreFields (first : Text) (fields : List Text) : Type 0 where
  pub head : ℕ
  pub rest : Text
  pub first_cons : first ≡ head ∷ rest
  pub head_space : is_space head ≡ false
  pub head_comment : (head == b'#') ≡ false
  pub tab_free : AllFreeOf b'\t' (first ∷ fields)
  pub newline_free : AllFreeOf b'\n' (first ∷ fields)
  pub return_free : AllFreeOf b'\r' (first ∷ fields)

abbrev pub line_of : Bool → List Text → Text
line_of http_only fields = mark http_only ++ join (codes "\t") fields

join-head :
    (d : ℕ) (s : Text) (fields : List Text)
    → (t : Text) × (join (codes "\t") ((d ∷ s) ∷ fields) ≡ d ∷ t)
unfolding join
join-head d s [] = (s, refl)
join-head d s (f ∷ fields) = (s ++ (codes "\t" ++ join (codes "\t") (f ∷ fields)), refl)

module _ (first : Text) (fields : List Text) (are : AreFields first fields) where
  abbrev joined : Text
  joined = join (codes "\t") (first ∷ fields)

  pub line_newline : (b : Bool) → is_free_of b'\n' (line_of b (first ∷ fields)) ≡ true
  unfolding is_free_of
  line_newline true = ground (
    arith,
    is_free_of-append b'\n' (mark true) joined,
    is_free_of-join b'\n' (codes "\t") (first ∷ fields) refl are.newline_free,
  )
  line_newline false = is_free_of-join b'\n' (codes "\t") (first ∷ fields) refl are.newline_free

  pub line_return : (b : Bool) → is_free_of b'\r' (line_of b (first ∷ fields)) ≡ true
  unfolding is_free_of
  line_return true = ground (
    arith,
    is_free_of-append b'\r' (mark true) joined,
    is_free_of-join b'\r' (codes "\t") (first ∷ fields) refl are.return_free,
  )
  line_return false = is_free_of-join b'\r' (codes "\t") (first ∷ fields) refl are.return_free

  joined-head : (t : Text) × (joined ≡ are.head ∷ t)
  joined-head =
      let (t, e) = join-head are.head are.rest fields in
      (t, ap (λ f. join (codes "\t") (f ∷ fields)) are.first_cons ∙ e)

  pub line-ne-nil : (b : Bool) → line_of b (first ∷ fields) ≢ []
  line-ne-nil true e = cc
  line-ne-nil false e = let (t, f) = joined-head in cc

  split-joined : split b'\t' joined ≡ first ∷ fields
  split-joined = split-join b'\t' first fields are.tab_free

  -- A line gives the fields that it was made of, and whether it had the mark.
  pub netscape_line-fields :
      (line : ℕ) (b : Bool)
      → netscape_line line (line_of b (first ∷ fields)) ≡ one_of (cookie_of line b (first ∷ fields))
  unfolding netscape_line
  netscape_line-fields line true =
      let (u, f) = trim_space-head b'#' (codes "HttpOnly_" ++ joined) refl in
      rw (
        trim_right-line (http_only_prefix ++ joined) (line_newline true) (line_return true),
        f,
        has_prefix-append http_only_prefix joined,
        drop-append http_only_prefix joined,
        split-joined,
      )
  netscape_line-fields line false =
      let (t, e) = joined-head in
      let (u, f) = trim_space-head are.head t are.head_space in
      rw (
        trim_right-line joined (line_newline false) (line_return false),
        split-joined,
        ap trim_space e ∙ f,
        ap (λ s. has_prefix s http_only_prefix) e,
        head-no_prefix are.head t (codes "HttpOnly_") are.head_comment,
        head-no_prefix are.head u [] are.head_comment,
      )
