-- ===== src/Joblist/Lines.antt =====
-- cmd/tls-forge/joblist.go: `decodeLineJobs` on a list that is written one job a line.
use tls_forge.Base.{
  ℕ, ◌<◌, true, false, List, [], ◌∷◌, ◌++◌, append_assoc, some, ◌≡◌, inl, inr, refl, ap, ap₂, sym,
  ◌∙◌, arith, Bool-cases, ◌==◌, Text, codes, has_prefix, length, is_space, none_of, is_free_of,
  is_free_of-append, trim_left, trim_right, trim_space, trim_right-append, trim_right-none_of,
  trim_space-none_of, scan_lines, scan_lines-line, scan_lines-nil,
}
use tls_forge.Joblist.{
  Job, job, ok, at_space, job_of, line_job, line_jobs, max_line, decode_line_jobs,
}

abbrev pub with_proxy : Text → Text → Text
with_proxy url [] = url
with_proxy url (c ∷ proxy) = url ++ (b' ' ∷ c ∷ proxy)

unfoldable pub line_of : Job → Text
line_of j = with_proxy j.url j.proxy

unfoldable pub lines_of : List Job → Text
unfolding line_of
lines_of [] = []
lines_of (j ∷ jobs) = line_of j ++ (b'\n' ∷ lines_of jobs)

-- A URL without white space that does not begin as a comment does, and a proxy without white
-- space, on a line that is not too long.
pub record IsListed (j : Job) : Type 0 where
  pub head : ℕ
  pub rest : Text
  pub url_cons : j.url ≡ head ∷ rest
  pub no_comment : (head == b'#') ≡ false
  pub url_plain : none_of is_space j.url ≡ true
  pub proxy_plain : none_of is_space j.proxy ≡ true
  pub first : j.occurrence ≡ 0
  pub short : length (line_of j) < max_line

plain-free :
    (sep : ℕ) (s : Text) → is_space sep ≡ true → none_of is_space s ≡ true → is_free_of sep s ≡ true
unfolding is_free_of
plain-free sep [] space plain = refl
plain-free sep (c ∷ s) space plain = ground (arith, plain-free sep s)

at_space-plain : (s : Text) → none_of is_space s ≡ true → at_space s ≡ (s, [])
unfolding at_space
at_space-plain [] plain = refl
at_space-plain (c ∷ s) plain = elim (Bool-cases (is_space c)) [
  | inl space ↦ cc (rw space at plain)
  | inr dark ↦ rw (dark, at_space-plain s (rw dark at plain)) refl
]

at_space-append :
    (s t : Text) → none_of is_space s ≡ true → at_space (s ++ b' ' ∷ t) ≡ (s, b' ' ∷ t)
unfolding at_space
at_space-append [] t plain = refl
at_space-append (c ∷ s) t plain = elim (Bool-cases (is_space c)) [
  | inl space ↦ cc (rw space at plain)
  | inr dark ↦ rw (dark, at_space-append s t (rw dark at plain)) refl
]

trim_space-behind : (t : Text) → trim_space (b' ' ∷ t) ≡ trim_space t
unfolding trim_space trim_left
trim_space-behind t = refl

trim_left-head : (h : ℕ) (s : Text) → is_space h ≡ false → trim_left is_space (h ∷ s) ≡ h ∷ s
unfolding trim_left
trim_left-head h s dark = rw dark refl

trim_right-two :
    (s : Text) (c : ℕ) (t : Text)
    → none_of is_space (c ∷ t) ≡ true
    → trim_right is_space (s ++ b' ' ∷ c ∷ t) ≡ s ++ b' ' ∷ c ∷ t
trim_right-two s c t plain =
    let whole = append_assoc s (b' ' ∷ []) (c ∷ t) in
    let kept = trim_right-append is_space (s ++ b' ' ∷ []) c t (ground arith) in
    ap (trim_right is_space) (sym whole)
    ∙ kept
    ∙ ap (λ u. (s ++ b' ' ∷ []) ++ c ∷ u) (trim_right-none_of is_space t (ground arith))
    ∙ whole

trim_space-two :
    (h : ℕ) (s : Text) (c : ℕ) (t : Text)
    → is_space h ≡ false
    → none_of is_space (c ∷ t) ≡ true
    → trim_space ((h ∷ s) ++ b' ' ∷ c ∷ t) ≡ (h ∷ s) ++ b' ' ∷ c ∷ t
unfolding trim_space
trim_space-two h s c t dark plain =
    ap (trim_right is_space) (trim_left-head h (s ++ b' ' ∷ c ∷ t) dark)
    ∙ trim_right-two (h ∷ s) c t plain

not_comment : (h : ℕ) (s : Text) → (h == b'#') ≡ false → has_prefix (h ∷ s) (codes "#") ≡ false
unfolding has_prefix
not_comment h s other = rw other refl

-- A line that is its own trimming and no comment is read at its first white space.
line_job-plain :
    (h : ℕ) (s : Text)
    → (h == b'#') ≡ false
    → trim_space (h ∷ s) ≡ h ∷ s
    → line_job (h ∷ s) ≡ some (job_of (at_space (h ∷ s)))
unfolding line_job
line_job-plain h s other trimmed = rw (trimmed, not_comment h s other) refl

head-dark : (h : ℕ) (s : Text) → none_of is_space (h ∷ s) ≡ true → is_space h ≡ false
head-dark h s plain = ground arith

line_job-one :
    (h : ℕ) (s : Text)
    → (h == b'#') ≡ false
    → none_of is_space (h ∷ s) ≡ true
    → line_job (h ∷ s) ≡ some (job (h ∷ s) [])
line_job-one h s other plain = rw (
  line_job-plain h s other (trim_space-none_of (h ∷ s) plain),
  at_space-plain (h ∷ s) plain,
  trim_space-none_of (h ∷ s) plain,
  trim_space-none_of [] refl,
)

line_job-two :
    (h : ℕ) (s : Text) (c : ℕ) (t : Text)
    → (h == b'#') ≡ false
    → none_of is_space (h ∷ s) ≡ true
    → none_of is_space (c ∷ t) ≡ true
    → line_job ((h ∷ s) ++ b' ' ∷ c ∷ t) ≡ some (job (h ∷ s) (c ∷ t))
line_job-two h s c t other plain proxy =
    line_job-plain h (s ++ b' ' ∷ c ∷ t) other (trim_space-two h s c t (head-dark h s plain) proxy)
    ∙ ap (λ p. some (job_of p)) (at_space-append (h ∷ s) (c ∷ t) plain)
    ∙ ap₂ (λ u v. some (job u v)) (trim_space-none_of (h ∷ s) plain)
        (trim_space-behind (c ∷ t) ∙ trim_space-none_of (c ∷ t) proxy)

line_job-with_proxy :
    (h : ℕ) (s proxy : Text)
    → (h == b'#') ≡ false
    → none_of is_space (h ∷ s) ≡ true
    → none_of is_space proxy ≡ true
    → line_job (with_proxy (h ∷ s) proxy) ≡ some (job (h ∷ s) proxy)
line_job-with_proxy h s [] other plain nothing = line_job-one h s other plain
line_job-with_proxy h s (c ∷ t) other plain proxy = line_job-two h s c t other plain proxy

line_job-line_of : (j : Job) → IsListed j → line_job (line_of j) ≡ some j
unfolding line_of
line_job-line_of j l =
    ap (λ u. line_job (with_proxy u j.proxy)) l.url_cons
    ∙ line_job-with_proxy l.head l.rest j.proxy l.no_comment
        (sym (ap (none_of is_space) l.url_cons) ∙ l.url_plain) l.proxy_plain
    ∙ ap (λ u. some (job u j.proxy)) (sym l.url_cons)
    ∙ ap (λ n. some (record j { occurrence = n })) (sym l.first)

free-with_proxy :
    (sep : ℕ) (url proxy : Text)
    → is_space sep ≡ true
    → (b' ' == sep) ≡ false
    → none_of is_space url ≡ true
    → none_of is_space proxy ≡ true
    → is_free_of sep (with_proxy url proxy) ≡ true
unfolding is_free_of
free-with_proxy sep url [] space apart plain nothing = plain-free sep url space plain
free-with_proxy sep url (c ∷ t) space apart plain proxy = ground (
  arith,
  is_free_of-append sep url (b' ' ∷ c ∷ t),
  plain-free sep url space plain,
  plain-free sep (c ∷ t) space proxy,
)

abbrev pub AllListed : List Job → Type 0
AllListed [] = Unit
AllListed (j ∷ jobs) = IsListed j × AllListed jobs

line_jobs-lines_of :
    (jobs : List Job) → AllListed jobs → line_jobs (scan_lines max_line (lines_of jobs)) ≡ ok jobs
unfolding line_jobs lines_of
line_jobs-lines_of [] listed = rw (scan_lines-nil max_line) refl
line_jobs-lines_of (j ∷ jobs) (l, listed) = rw (
  scan_lines-line max_line (line_of j) (lines_of jobs)
      (unfold line_of in free-with_proxy b'\n' j.url j.proxy refl refl l.url_plain l.proxy_plain)
      (unfold line_of in free-with_proxy b'\r' j.url j.proxy refl refl l.url_plain l.proxy_plain)
      l.short,
  line_jobs-lines_of jobs listed,
  line_job-line_of j l,
)

-- Jobs that are written one a line, a URL and behind a space its proxy if it has one, are read back
-- as they are and in order, if no URL and no proxy has white space in it, no URL is empty or begins
-- with a number sign, each occurrence is 0, which a line does not have, and each line is below the
-- limit.
pub decode_line_jobs-lines_of :
    (jobs : List Job) → AllListed jobs → decode_line_jobs (lines_of jobs) ≡ ok jobs
unfolding decode_line_jobs
decode_line_jobs-lines_of jobs listed = line_jobs-lines_of jobs listed
