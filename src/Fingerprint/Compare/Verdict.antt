-- ===== src/Fingerprint/Compare/Verdict.antt =====
-- fingerprint/compare.go: the report, against `Matches` field by field.
use mathlib.Core.List.{Permᴰ}
use mathlib.Core.List.Permᴰ
use tls_forge.Base.{
  ◌≤◌, true, List, [], ◌∷◌, ◌++◌, Option, none, some, ◌≡◌, ◌↔◌, refl, ap, ◌∙◌, arith, inl, inr,
  Option-cases, Text, text_eq_iff, length, append-nil, append_assoc,
}
use tls_forge.Fingerprint.Wire.{Cryptobyte}
use tls_forge.Fingerprint.Hello.{ClientHello}
use tls_forge.Fingerprint.Http.{Http1, Http2}
use tls_forge.Fingerprint.Compare.Counts.{subtract-perm}
use tls_forge.Fingerprint.Compare.{
  Difference, Report, Field, report_ok, equal_strings, render, matches, diff_value, diff_ordered,
  diff_set, diff_field, append_some, compare_loop, compare_fields, tls_fields, http2_fields,
  http1_fields, compare_tls, compare_http2, compare_http1, scalar_field, list_field, set_field,
}

pub equal_strings_iff : (a b : List Text) → (equal_strings a b ≡ true) ↔ (a ≡ b)
unfolding equal_strings
equal_strings_iff [] [] = ground arith
equal_strings_iff [] (y ∷ b) = ground arith
equal_strings_iff (x ∷ a) [] = ground arith
equal_strings_iff (x ∷ a) (y ∷ b) = ground (arith, equal_strings_iff a b, text_eq_iff x y)

-- A field makes a difference exactly when it does not match.
diff_field-matches : (want got : Field) → (diff_field want got ≡ none) ↔ (matches want got ≡ true)
unfolding diff_field matches diff_value diff_set diff_ordered
diff_field-matches want got = ground arith

-- Every field matches the one at its place on the other side.
abbrev pub AllMatch : List Field → List Field → Type 0
AllMatch [] candidate = Unit
AllMatch (want ∷ reference) [] = ⊥
AllMatch (want ∷ reference) (got ∷ candidate) =
    (matches want got ≡ true) × AllMatch reference candidate

diffs : List Field → List Field → List Difference
diffs [] candidate = []
diffs (want ∷ reference) [] = []
diffs (want ∷ reference) (got ∷ candidate) =
    append_some [] (diff_field want got) ++ diffs reference candidate

append_some-append :
    (ds : List Difference) (d : Option Difference) (xs : List Difference)
    → append_some ds d ++ xs ≡ ds ++ (append_some [] d ++ xs)
append_some-append ds none xs = refl
append_some-append ds (some d) xs = append_assoc ds (d ∷ []) xs

compare_loop-diffs :
    (ds : List Difference) (r c : List Field)
    → length r ≤ length c
    → compare_loop ds r c ≡ some (record { differences = ds ++ diffs r c })
unfolding compare_loop diffs
compare_loop-diffs ds [] c h = rw append-nil
compare_loop-diffs ds (w ∷ r) [] h = elim h [ ]
compare_loop-diffs ds (w ∷ r) (g ∷ c) h =
    compare_loop-diffs (append_some ds (diff_field w g)) r c (omega arith)
    ∙ ap (λ (xs : List Difference). let r : Report = record { differences = xs } in some r)
        (append_some-append ds (diff_field w g) (diffs r c))

diffs_nil : (r c : List Field) → length r ≤ length c → (diffs r c ≡ []) ↔ AllMatch r c
unfolding diffs
diffs_nil [] c h = (λ e. tt, λ u. refl)
diffs_nil (w ∷ r) [] h = elim h [ ]
diffs_nil (w ∷ r) (g ∷ c) h =
    let ih = diffs_nil r c (omega arith) in
    elim (Option-cases (diff_field w g)) [
      | inl e ↦ rw e ((λ z. ((diff_field-matches w g).0 e, ih.0 z)), (λ m. ih.1 m.1))
      | inr (d, e) ↦ rw e ((λ z. cc), (λ m. cc ((diff_field-matches w g).1 m.0, e)))
    ]

-- The comparison of two field lists of one length ends in a report, never past the end of the
-- candidate's, and the report is clean exactly when every field matches.
compare_fields_verdict :
    (r c : List Field)
    → length r ≤ length c
    → (report : Report) × (compare_fields r c ≡ some report)
      × ((report_ok report ≡ true) ↔ AllMatch r c)
unfolding compare_fields report_ok
compare_fields_verdict r c h = (
  record { differences = diffs r c },
  compare_loop-diffs [] r c h,
  ((λ e. (diffs_nil r c h).0 (ground arith)), (λ m. rw ((diffs_nil r c h).1 m))),
)

-- What the verdict on two ClientHellos says: a comparison always ends in a report, which is clean
-- exactly when each field of the one matches the same field of the other.
pub compare_tls_verdict :
    (cb : Cryptobyte) (sha256 : Text → Text) (a b : ClientHello)
    → (report : Report) × (compare_tls cb sha256 a b ≡ some report)
      × ((report_ok report ≡ true) ↔ AllMatch (tls_fields cb sha256 a) (tls_fields cb sha256 b))
unfolding compare_tls
compare_tls_verdict cb sha256 a b =
    compare_fields_verdict (tls_fields cb sha256 a) (tls_fields cb sha256 b)
      (unfold tls_fields in omega arith)

-- A comparison of two HTTP/2 connections always ends in a report, and so does one of two HTTP/1.1
-- requests; either is clean exactly when each field of the one matches the same field of the other.
pub compare_http_verdict :
    (a b : Http2) (c d : Http1)
    → ((report : Report) × (compare_http2 a b ≡ some report)
        × ((report_ok report ≡ true) ↔ AllMatch (http2_fields a) (http2_fields b)))
      × ((report : Report) × (compare_http1 c d ≡ some report)
          × ((report_ok report ≡ true) ↔ AllMatch (http1_fields c) (http1_fields d)))
unfolding compare_http2 compare_http1
compare_http_verdict a b c d = (
  compare_fields_verdict (http2_fields a) (http2_fields b) (unfold http2_fields in omega arith),
  compare_fields_verdict (http1_fields c) (http1_fields d) (unfold http1_fields in omega arith),
)

-- A field that is a list matches exactly where the lists are equal.
pub matches-list_field :
    (n m : Text) (xs ys : List Text)
    → (matches (list_field n xs) (list_field m ys) ≡ true) ↔ (xs ≡ ys)
unfolding matches
matches-list_field n m xs ys = equal_strings_iff xs ys

pub matches-scalar_field :
    (n m x y : Text) → (matches (scalar_field n x) (scalar_field m y) ≡ true) ↔ (x ≡ y)
unfolding matches render
matches-scalar_field n m x y = text_eq_iff x y

pub matches-set_field :
    (n m : Text) (xs ys : List Text)
    → Permᴰ xs ys
    → matches (set_field n xs) (set_field m ys) ≡ true
unfolding matches
matches-set_field n m xs ys p = rw (subtract-perm p, subtract-perm (Permᴰ.symm p))
