-- ===== src/Joblist/Checks.antt =====
-- cmd/tls-forge/joblist.go: which lists `validate` accepts.
use tls_forge.Base.{
  ℕ, ◌+◌, true, false, List, [], ◌∷◌, none, ◌≡◌, ◌≢◌, ◌↔◌, inl, inr, refl, Bool-cases, Text,
  has_prefix,
}
use tls_forge.Joblist.{Job, Problem, is_blank, is_http, problems_from, verdict, validate}

-- Every URL is one of http or https.
abbrev pub AllHttp : List Job → Type 0
AllHttp [] = Unit
AllHttp (j ∷ jobs) = (is_http j.url ≡ true) × AllHttp jobs

blank-not_http : (url : Text) → is_blank url ≡ true → is_http url ≡ false
unfolding has_prefix
blank-not_http [] h = refl
blank-not_http (c ∷ url) h = cc

problems_from-none : (i : ℕ) (jobs : List Job) → (problems_from i jobs ≡ []) ↔ AllHttp jobs
unfolding problems_from
problems_from-none i [] = ((λ e. tt), (λ a. refl))
problems_from-none i (j ∷ jobs) =
    let rest = problems_from-none (i + 1) jobs in
    elim (Bool-cases (is_blank j.url)) [
      | inl blank ↦
          let other = blank-not_http j.url blank in
          ((λ e. cc (rw blank at e)), (λ a. cc (other, a.0)))
      | inr given ↦ elim (Bool-cases (is_http j.url)) [
        | inl http ↦
            ((λ e. (http, rest.0 (rw (given, http) at e))), (λ a. rw (given, http) (rest.1 (a.1))))
        | inr other ↦ ((λ e. cc (rw (given, other) at e)), (λ a. cc (other, a.0)))
      ]
    ]

verdict-none :
    (jobs : List Job) (i : ℕ)
    → (verdict (problems_from i jobs) ≡ none) ↔ (problems_from i jobs ≡ [])
verdict-none jobs i = go (problems_from i jobs)
  where
    go : (found : List Problem) → (verdict found ≡ none) ↔ (found ≡ [])
    go [] = ((λ e. refl), (λ e. refl))
    go (p ∷ found) = ((λ e. cc), (λ e. cc))

-- A list is accepted exactly if there is a URL in it and each of its URLs is one of http or https.
pub validate-none : (jobs : List Job) → (validate jobs ≡ none) ↔ ((jobs ≢ []) × AllHttp jobs)
unfolding validate
validate-none [] = ((λ e. cc), (λ a. absurd (a.0 refl)))
validate-none (j ∷ jobs) =
    let clear = verdict-none (j ∷ jobs) 0 in
    let http = problems_from-none 0 (j ∷ jobs) in
    ((λ e. ((λ f. cc), http.0 (clear.0 e))), (λ a. clear.1 (http.1 (a.1))))
