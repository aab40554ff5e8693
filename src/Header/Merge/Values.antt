-- ===== src/Header/Merge/Values.antt =====
-- Which values a merged header carries.
use tls_forge.Base.{
  ◌||◌, ◌&&◌, not, [], ◌∷◌, ◌++◌, ◌≡◌, refl, arith, append-nil, append_assoc, if◌then◌else◌, Text,
  text_eq, text_eq_iff, to_lower, to_lower_idem, contains,
}
use tls_forge.Header.{
  Field, Header, values, has, collect, Merging, keep_base, keep_bases, append_new, append_news,
  merge,
}
use tls_forge.Header.Lookup.{
  values_at, has_key, values-values_at, has-has_key, values_at-append, values-of_has_not,
}
use tls_forge.Header.Merge.{entries, values_at-one, lookup-overrides, values_at-entries}

module _ (o : Header) where
  values_at-keep_base :
      (k : Text) (s : Merging) (f : Field)
      → values_at k (keep_base (collect [] o) s f).out
        ≡ values_at k s.out
          ++ (if text_eq (to_lower f.name) k
              then (if has_key k o
                  then (if contains k s.used then [] else values_at k o)
                  else f.value ∷ [])
              else [])
  unfolding keep_base
  values_at-keep_base k s f =
      let n = to_lower f.name in
      ground (
        arith,
        lookup-overrides n o,
        values_at-append k s.out (f ∷ []),
        values_at-append k s.out (entries n o),
        values_at-entries k n o,
        append-nil (values_at k s.out),
        text_eq_iff n k,
        values_at-one k f,
      )

  contains-keep_base :
      (k : Text) (s : Merging) (f : Field)
      → contains k (keep_base (collect [] o) s f).used
        ≡ (contains k s.used || (text_eq (to_lower f.name) k && has_key k o))
  unfolding keep_base contains
  contains-keep_base k s f =
      let n = to_lower f.name in ground (arith, lookup-overrides n o, text_eq_iff n k)

  values_at-keep_bases :
      (k : Text) (s : Merging) (h : Header)
      → values_at k (keep_bases (collect [] o) s h).out
        ≡ values_at k s.out
          ++ (if has_key k o
              then (if contains k s.used || not (has_key k h) then [] else values_at k o)
              else values_at k h)
  unfolding keep_bases values_at has_key
  values_at-keep_bases k s [] = ground (arith, append-nil (values_at k s.out))
  values_at-keep_bases k s (f ∷ h) =
      let s' = keep_base (collect [] o) s f in
      ground (
        arith,
        values_at-keep_bases k s' h,
        values_at-keep_base k s f,
        contains-keep_base k s f,
        append-nil (values_at k s.out),
        append_assoc (values_at k s.out) (f.value ∷ []) (values_at k h),
        append-nil (values_at k s.out ++ values_at k o),
      )

  contains-keep_bases :
      (k : Text) (s : Merging) (h : Header)
      → contains k (keep_bases (collect [] o) s h).used
        ≡ (contains k s.used || (has_key k h && has_key k o))
  unfolding keep_bases has_key
  contains-keep_bases k s [] = ground arith
  contains-keep_bases k s (f ∷ h) =
      let s' = keep_base (collect [] o) s f in
      ground (arith, contains-keep_bases k s' h, contains-keep_base k s f)

  module _ (h : Header) where
    values_at-append_new :
        (k : Text) (s : Merging) (f : Field)
        → values_at k (append_new h (collect [] o) s f).out
          ≡ values_at k s.out
            ++ (if text_eq (to_lower f.name) k && not (contains k s.used || has_key k h)
                then values_at k o
                else [])
    unfolding append_new
    values_at-append_new k s f =
        let n = to_lower f.name in
        ground (
          arith,
          lookup-overrides n o,
          has-has_key h n,
          to_lower_idem f.name,
          values_at-append k s.out (entries n o),
          values_at-append k s.out [],
          values-of_has_not k o,
          values_at-entries k n o,
          append-nil (values_at k s.out),
          append-nil s.out,
          text_eq_iff n k,
        )

    contains-append_new :
        (k : Text) (s : Merging) (f : Field)
        → contains k (append_new h (collect [] o) s f).used
          ≡ (contains k s.used || (text_eq (to_lower f.name) k && not (has_key k h)))
    unfolding append_new contains
    contains-append_new k s f =
        let n = to_lower f.name in
        ground (arith, has-has_key h n, to_lower_idem f.name, text_eq_iff n k)

    values_at-append_news :
        (k : Text) (s : Merging) (g : Header)
        → values_at k (append_news h (collect [] o) s g).out
          ≡ values_at k s.out
            ++ (if has_key k g && not (contains k s.used || has_key k h) then values_at k o else [])
    unfolding append_news has_key
    values_at-append_news k s [] = ground (arith, append-nil (values_at k s.out))
    values_at-append_news k s (f ∷ g) =
        let s' = append_new h (collect [] o) s f in
        ground (
          arith,
          values_at-append_news k s' g,
          values_at-append_new k s f,
          contains-append_new k s f,
          append-nil (values_at k s.out),
          append-nil (values_at k s.out ++ values_at k o),
        )

    values_at-merged :
        (k : Text) (s : Merging)
        → s.out ≡ []
        → s.used ≡ []
        → values_at k (append_news h (collect [] o) (keep_bases (collect [] o) s h) o).out
          ≡ (if has_key k o then values_at k o else values_at k h)
    unfolding values_at contains
    values_at-merged k s none_out none_used =
        let s' = keep_bases (collect [] o) s h in
        ground (
          arith,
          values_at-append_news k s' o,
          values_at-keep_bases k s h,
          contains-keep_bases k s h,
          values-of_has_not k h,
          append-nil (values_at k o),
          append-nil (values_at k h),
        )

-- The merged header has the overrides' values, in their order, under every name that the
-- overrides hold, and the base's values under every other name.
pub values-merge :
    (h o : Header) (n : Text) → values (merge h o) n ≡ (if has o n then values o n else values h n)
unfolding merge
values-merge h [] n = unfold has in refl
values-merge h (f ∷ o) n =
    simp (values-values_at, has-has_key)
      (values_at-merged (f ∷ o) h (to_lower n) (record { out = []; used = [] }) refl refl)
