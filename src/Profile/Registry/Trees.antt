-- ===== src/Profile/Registry/Trees.antt =====
-- profile/registry.go: which file `lookup` finds.
use mathlib.Core.List.{Permᴰ}
use mathlib.Core.List.Permᴰ
use mathlib.Core.Path.{subst}
use tls_forge.Base.{
  ℕ, true, false, List, [], ◌∷◌, ◌++◌, Option, none, some, ◌≡◌, inl, inr, refl, ap, sym, ◌∙◌, arith,
  if◌then◌else◌, Bool-cases, Text, text_eq, text_eq_iff, contains, sort, sort-perm, sort-Permᴰ,
  text_leb, text_leb-TotalOrder, is_free_of, ◌==◌, All, All-perm, suc, length, length-perm,
  append_assoc,
}
use tls_forge.Base.Lower.{contains-sort}
use tls_forge.Base.Distinct.{contains-All}
use tls_forge.Profile.Registry.{
  Entry, Tree, at, dot_json, json_stem, name_if, cons_some, json_files, host_file, first_file,
  in_version, lookup, cut_last,
}

-- The least of the files, in the order of their names.
abbrev pub least : List Text → Text
least files = elim (sort text_leb files) [ [] ↦ [] | f ∷ fs ↦ f ]

-- The file that stands for a version: the host's, if there is one, or the least.
abbrev pub file_of : Text → List Text → Text
file_of host files = if contains (host ++ dot_json) files then host ++ dot_json else least files

cons_some-perm :
    (o : Option Text) {xs ys : List Text} → Permᴰ xs ys → Permᴰ (cons_some o xs) (cons_some o ys)
cons_some-perm none p = p
cons_some-perm (some t) p = Permᴰ.cons refl p

cons_some_swap :
    (o q : Option Text) (xs : List Text)
    → Permᴰ (cons_some o (cons_some q xs)) (cons_some q (cons_some o xs))
cons_some_swap none q xs = Permᴰ.refl _
cons_some_swap (some t) none xs = Permᴰ.refl _
cons_some_swap (some t) (some u) xs = Permᴰ.swap refl refl

json_files-perm : {xs ys : List Entry} → Permᴰ xs ys → Permᴰ (json_files xs) (json_files ys)
unfolding json_files
json_files-perm Permᴰ.nil = Permᴰ.nil
json_files-perm (Permᴰ.cons {a} {b} {l₁} {l₂} e p) =
    subst
      (λ x.
        Permᴰ (cons_some (name_if a.name (json_stem a)) (json_files l₁))
          (cons_some (name_if x.name (json_stem x)) (json_files l₂)))
      e (cons_some-perm (name_if a.name (json_stem a)) (json_files-perm p))
json_files-perm (Permᴰ.swap {a} {b} {a'} {b'} {l} e f) =
    subst (λ x. Permᴰ (json_files (a ∷ b ∷ l)) (json_files (x ∷ b' ∷ l))) f
      (subst (λ x. Permᴰ (json_files (a ∷ b ∷ l)) (json_files (b ∷ x ∷ l))) e
        (cons_some_swap (name_if a.name (json_stem a)) (name_if b.name (json_stem b))
          (json_files l)))
json_files-perm (Permᴰ.trans p q) = Permᴰ.trans (json_files-perm p) (json_files-perm q)

module _ (read_file : List Text → Option Text) (d d' : List Text → Option (List Entry)) where
  abbrev tree_of : (List Text → Option (List Entry)) → Tree
  tree_of read_dir = record { read_file = read_file; read_dir = read_dir }

  host_file_same :
      (host name : Text) (files : List Text)
      → host_file (tree_of d) host name files ≡ host_file (tree_of d') host name files
  unfolding host_file
  host_file_same host name [] = refl
  host_file_same host name (f ∷ files) = rw (host_file_same host name files) refl

  first_file_same :
      (name : Text) (files : List Text)
      → first_file (tree_of d) name files ≡ first_file (tree_of d') name files
  first_file_same name [] = refl
  first_file_same name (f ∷ files) = refl

-- The order in which a directory is read makes no difference: trees with the same files, which
-- list the directory of a name in different orders, find the same.
pub lookup-perm :
    (read_file : List Text → Option Text) (d d' : List Text → Option (List Entry))
    (host name : Text) (xs ys : List Entry)
    → d (name ∷ []) ≡ some xs
    → d' (name ∷ []) ≡ some ys
    → Permᴰ xs ys
    → lookup (record { read_file = read_file; read_dir = d }) host name
      ≡ lookup (record { read_file = read_file; read_dir = d' }) host name
unfolding lookup
lookup-perm read_file d d' host name xs ys dx dy p =
    let files = sort text_leb (json_files ys) in
    rw
      (
        dx,
        dy,
        sort-perm text_leb text_leb-TotalOrder (json_files-perm p),
        host_file_same read_file d d' host name files,
        first_file_same read_file d d' name files,
      )
      refl

module _ (tree : Tree) (host name : Text) where
  -- Every file that is listed can be read.
  abbrev pub Readable : List Text → Type 0
  Readable files = All (λ f. (text : Text) × (tree.read_file (name ∷ f ∷ []) ≡ some text)) files

  host_file-contains :
      (files : List Text)
      → Readable files
      → host_file tree host name files ≡ (
          if contains (host ++ dot_json) files
          then at tree (name ∷ (host ++ dot_json) ∷ [])
          else none)
  unfolding host_file contains
  host_file-contains [] h = refl
  host_file-contains (f ∷ files) ((text, e), h) = elim (Bool-cases (text_eq f (host ++ dot_json))) [
    | inl same ↦
        let path = (text_eq_iff f (host ++ dot_json)).0 same in
        let there : tree.read_file (name ∷ (host ++ dot_json) ∷ []) ≡ some text = rw (← path) e in
        rw (same, e, there, path) refl
    | inr other ↦ rw other (host_file-contains files h)
  ]

  first_least :
      (sorted : List Text) (n : ℕ)
      → length sorted ≡ suc n
      → first_file tree name sorted ≡ at tree (name ∷ (elim sorted [ [] ↦ [] | f ∷ fs ↦ f ]) ∷ [])
  first_least [] n e = absurd (omega arith)
  first_least (f ∷ fs) n e = refl

  version_file :
      (f : Text) (fs : List Text)
      → Readable (f ∷ fs)
      → in_version tree host name (sort text_leb (f ∷ fs))
        ≡ at tree (name ∷ file_of host (f ∷ fs) ∷ [])
  version_file f fs h =
      let files = f ∷ fs in
      let p = sort-Permᴰ text_leb files in
      let found = host_file-contains (sort text_leb files) (All-perm _ (Permᴰ.symm p) h) in
      elim (Bool-cases (contains (host ++ dot_json) files)) [
        | inl there ↦
            let (text, e) =
              contains-All (λ g. (text : Text) × (tree.read_file (name ∷ g ∷ []) ≡ some text))
                (host ++ dot_json) files there h in
            rw (found, contains-sort (host ++ dot_json) files, there, e) refl
        | inr missing ↦
            rw (found, contains-sort (host ++ dot_json) files, missing)
              (first_least (sort text_leb files) (length fs) (length-perm p))
      ]

  -- A version that has files, and no file of its own name, resolves to the file of the host's
  -- platform if that is listed, and to the least name otherwise.
  pub lookup_version :
      (entries : List Entry) (f : Text) (fs : List Text)
      → tree.read_file ((name ++ dot_json) ∷ []) ≡ none
      → tree.read_dir (name ∷ []) ≡ some entries
      → json_files entries ≡ f ∷ fs
      → Readable (f ∷ fs)
      → lookup tree host name ≡ at tree (name ∷ file_of host (f ∷ fs) ∷ [])
  unfolding lookup
  lookup_version entries f fs flat dir files h = rw (flat, dir, files) (version_file f fs h)

cut_last-free : (s : Text) → is_free_of b'_' s ≡ true → cut_last s ≡ none
unfolding cut_last is_free_of
cut_last-free [] h = refl
cut_last-free (c ∷ s) h =
    let other : (c == b'_') ≡ false = ground arith in
    rw (cut_last-free s (ground arith), other) refl

cut_last-append : (a b : Text) → is_free_of b'_' b ≡ true → cut_last (a ++ b'_' ∷ b) ≡ some (a, b)
unfolding cut_last
cut_last-append [] b h = rw (cut_last-free b h) refl
cut_last-append (c ∷ a) b h = rw (cut_last-append a b h) refl

-- A version and a platform without an underscore are found again by their joined name, where no
-- file and no directory has that name.
pub lookup_platform :
    (tree : Tree) (host : Text) (c : ℕ) (version platform : Text)
    → tree.read_file (((c ∷ version ++ b'_' ∷ platform) ++ dot_json) ∷ []) ≡ none
    → tree.read_dir ((c ∷ version ++ b'_' ∷ platform) ∷ []) ≡ none
    → is_free_of b'_' platform ≡ true
    → lookup tree host (c ∷ version ++ b'_' ∷ platform)
      ≡ at tree ((c ∷ version) ∷ (platform ++ dot_json) ∷ [])
unfolding lookup
lookup_platform tree host c version platform flat dir free =
    rw (flat, dir, cut_last-append (c ∷ version) platform free) refl

-- A platform with an underscore is looked for below another version: the name is cut at the last
-- underscore.
pub lookup_underscore :
    (tree : Tree) (host : Text) (c : ℕ) (version left right : Text)
    → tree.read_file (((c ∷ version ++ b'_' ∷ (left ++ b'_' ∷ right)) ++ dot_json) ∷ []) ≡ none
    → tree.read_dir ((c ∷ version ++ b'_' ∷ (left ++ b'_' ∷ right)) ∷ []) ≡ none
    → is_free_of b'_' right ≡ true
    → tree.read_file ((c ∷ version ++ b'_' ∷ left) ∷ (right ++ dot_json) ∷ []) ≡ none
    → lookup tree host (c ∷ version ++ b'_' ∷ (left ++ b'_' ∷ right)) ≡ none
unfolding lookup
lookup_underscore tree host c version left right flat dir free missing =
    let parts : (c ∷ version) ++ (b'_' ∷ (left ++ b'_' ∷ right))
        ≡ (c ∷ version ++ b'_' ∷ left) ++ b'_' ∷ right =
      sym (append_assoc (c ∷ version) (b'_' ∷ left) (b'_' ∷ right)) in
    let cut = ap cut_last parts ∙ cut_last-append (c ∷ version ++ b'_' ∷ left) right free in
    rw (flat, dir, cut, missing) refl
