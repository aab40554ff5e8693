-- ===== src/Echo/Navigation/Issued.antt =====
-- echo/server.go: a token leads to the session that it was issued to, whatever happens after.
use mathlib.Core.Path.{subst}
use tls_forge.Base.{
  ℕ, ◌+◌, ◌%◌, ◌^◌, ◌||◌, false, List, [], ◌∷◌, Option, none, some, ◌≡◌, inl, inr, arith, refl, ap,
  sym, ◌∙◌, Bool-cases, if_true, if◌then◌else◌, Text, text_eq, text_eq_refl, codes,
}
use tls_forge.Capture.{Http1, Navigator}
use tls_forge.Profile.{is_empty}
use tls_forge.Echo.Navigation.{
  Server, base36, session_at, issued, issue, known, set_navigation, with_session, attached,
  attach_http1, report, capture_session, complete, taken, await, Asked, paged, collected, collect,
  route, Step, Steps, started,
}
use tls_forge.Echo.Navigation.Tokens.{base36-ne-nil}
use tls_forge.Echo.Navigation.Filed.{
  IsFiled, InRange, FiledInRange, session_at-issued, IsLater, IsLater-refl, IsLater-trans,
  with_session-IsLater, complete-IsLater, set_navigation-IsLater, capture_session-IsLater, Leads,
  or_pair,
}

attached-IsLater :
    (v w : Server) (http1 : Http1) (o : Option ℕ)
    → FiledInRange v
    → attached v http1 o ≡ some w
    → IsLater v w
attached-IsLater v w http1 none is e = cc
attached-IsLater v w http1 (some s) is e =
    subst (IsLater v) (ap (or_pair v) e)
      (with_session-IsLater v s (record (v.sessions s) { http1 = some http1 }) refl refl is)

taken-IsLater :
    (v w : Server) (s : ℕ) (waiting : List ℕ)
    → FiledInRange v
    → taken v waiting ≡ some (s, w)
    → IsLater v w
taken-IsLater v w s [] is e = cc
taken-IsLater v w s (r ∷ waiting) is e =
    subst (IsLater v) (ap (λ (x : Option (ℕ × Server)). (or_pair (s, v) x).1) e) (record {
      grows = omega arith;
      filed = λ small.
          let i = is small in record { issued = i.issued; leads = i.leads; counted = i.counted };
      kept = λ small token q f. f;
    })

paged-IsLater :
    (v : Server) (s : ℕ) (token : Text) (o : Option (Text × Server))
    → FiledInRange v
    → set_navigation v s token ≡ o
    → IsLater v ((paged v o).1)
paged-IsLater v s token none is e = IsLater-refl v is
paged-IsLater v s token (some (t, w)) is e = set_navigation-IsLater v w s token t is e

collected-IsLater :
    (v : Server) (n : Navigator) (token : Text) (s : ℕ) (o : Option (ℕ × Server))
    → FiledInRange v
    → capture_session v token s ≡ o
    → IsLater v ((collected v n o).1)
collected-IsLater v n token s none is e = IsLater-refl v is
collected-IsLater v n token s (some (r, w)) is e =
    let first = capture_session-IsLater v w token s r is e in
    let u = with_session w r (record (w.sessions r) { navigator = some n }) in
    let second =
      with_session-IsLater w r (record (w.sessions r) { navigator = some n }) refl refl
        first.filed in
    IsLater-trans v u (complete u r) (IsLater-trans v w u first second)
      (complete-IsLater u r second.filed)

collect-IsLater :
    (v : Server) (s : ℕ) (q : Asked) (n : Option Navigator)
    → FiledInRange v
    → IsLater v ((collect v s q n).1)
collect-IsLater v s q none is = IsLater-refl v is
collect-IsLater v s q (some n) is =
    collected-IsLater v n q.navigation s (capture_session v q.navigation s) is refl

module _ (unmarshal : Text → Option Navigator) where
  route-IsLater :
      (v : Server) (s : ℕ) (q : Asked) → FiledInRange v → IsLater v ((route unmarshal v s q).1)
  unfolding route
  route-IsLater v s q is = elim (Bool-cases (text_eq q.path (codes "/"))) [
    | inl home ↦ rw home (paged-IsLater v s q.navigation (set_navigation v s q.navigation) is refl)
    | inr a ↦ elim (Bool-cases (text_eq q.path (codes "/api/all"))) [
      | inl all_ ↦ rw (a, all_) (IsLater-refl v is)
      | inr b ↦ elim (Bool-cases (text_eq q.path (codes "/collect"))) [
        | inl c ↦ rw (a, b, c) (collect-IsLater v s q (unmarshal q.content) is)
        | inr c ↦ rw (a, b, c) (IsLater-refl v is)
      ]
    ]
  ]

  Step-IsLater : {v w : Server} → Step unmarshal v w → FiledInRange v → IsLater v w
  unfolding attach_http1 await
  Step-IsLater (Step.routed v s q) is = route-IsLater v s q is
  Step-IsLater (Step.attached_ v w token http1 e) is =
      attached-IsLater v w http1 (session_at token v.by_id) is e
  Step-IsLater (Step.completed_ v s) is = complete-IsLater v s is
  Step-IsLater (Step.awaited v w s e) is = taken-IsLater v w s v.completed is e

  Steps-IsLater : {v w : Server} → Steps unmarshal v w → FiledInRange v → IsLater v w
  Steps-IsLater {v} Steps.done is = IsLater-refl v is
  Steps-IsLater {v} {w} (Steps.step {v = m} first rest) is =
      let a = Step-IsLater first is in IsLater-trans v m w a (Steps-IsLater rest a.filed)

started-IsFiled : FiledInRange started
started-IsFiled small = record { issued = tt; leads = λ s. tt; counted = refl }

issued-leads : (v : Server) (s n : ℕ) → session_at (base36 n) ((issued v s n).1).by_id ≡ some s
unfolding session_at
issued-leads v s n = rw (text_eq_refl (base36 n)) refl

-- The session that a page is filed with, by the token it was asked for with: the one that asks,
-- unless that has no token yet and brings one, which leads to its session already.
abbrev pub served_to : Server → ℕ → Text → Option ℕ
served_to v s query =
    if (v.sessions s).navigation || is_empty query then some s else session_at query v.by_id

served_at :
    (v w x : Server) (s r : ℕ) (t u : Text)
    → ◌≡◌ {A = Option (Text × Server)} (some (t, w)) (some (u, x))
    → session_at t w.by_id ≡ some r
    → session_at u x.by_id ≡ some r
served_at v w x s r t u e there =
    subst (λ (y : Text × Server). session_at (y.0) (y.1).by_id ≡ some r) (ap (or_pair (t, w)) e)
      there

known-leads :
    (v w : Server) (query t : Text) (o : Option ℕ)
    → session_at query v.by_id ≡ o
    → known v query o ≡ some (t, w)
    → (r : ℕ) × (o ≡ some r) × (session_at t w.by_id ≡ some r)
known-leads v w query t none there e = cc
known-leads v w query t (some r) there e = (r, refl, served_at v v w r r query t e there)

-- The token that a page is served with leads to the session that the page is filed with.
set_navigation-leads :
    (v w : Server) (s : ℕ) (query t : Text)
    → IsFiled v
    → set_navigation v s query ≡ some (t, w)
    → (r : ℕ) × (served_to v s query ≡ some r) × (session_at t w.by_id ≡ some r)
unfolding set_navigation
set_navigation-leads v w s query t is e = elim (Bool-cases (v.sessions s).navigation) [
  | inl old ↦ (
    s,
    rw old refl,
    served_at v v w s s (v.sessions s).token t (sym (if_true (v.sessions s).navigation _ _ old) ∙ e)
        (subst (λ x. Leads v.by_id s x (v.sessions s).token) old (is.leads s)),
  )
  | inr new ↦ elim (Bool-cases (is_empty query)) [
    | inl none_ ↦ (
      s,
      rw (new, none_) refl,
      served_at v (issue v s).1 w s s (issue v s).0 t (rw (new, none_) at e)
          (unfold issue in issued-leads v s ((v.next + 1) % 2 ^ 64)),
    )
    | inr brought ↦
        let (r, some_, there) =
          known-leads v w query t (session_at query v.by_id) refl (rw (new, brought) at e) in
        (r, rw (new, brought) some_, there)
  ]
]

-- A token that a page was served with, whatever token the page was asked for with, files every
-- later report and every later HTTP/1.1 request under it with one session, whichever connection
-- brings them and whatever pages, reports and captures other sessions had in between. That session
-- is the one that asked for the page, unless it had no token yet and brought one, which was known
-- then and led to that session already. Fewer than 2^64 tokens are issued.
pub report-set_navigation :
    (unmarshal : Text → Option Navigator) (v w x : Server) (s other : ℕ) (query t : Text)
    (http1 : Http1)
    → Steps unmarshal started v
    → set_navigation v s query ≡ some (t, w)
    → Steps unmarshal w x
    → InRange x
    → (r : ℕ) × (served_to v s query ≡ some r)
      × (capture_session x t other ≡ some (report x r))
      × (attach_http1 x t http1
          ≡ some (with_session x r (record (x.sessions r) { http1 = some http1 })))
unfolding capture_session attach_http1
report-set_navigation unmarshal v w x s other query t http1 before e after small =
    let is = (Steps-IsLater unmarshal before started-IsFiled).filed in
    let next = set_navigation-IsLater v w s query t is e in
    let later = Steps-IsLater unmarshal after next.filed in
    let (r, served, leads) =
      set_navigation-leads v w s query t (is (omega (arith, next.grows, later.grows, small))) e in
    let there = later.kept small t r leads in
    let (k, number, _) = session_at-issued x.next x.by_id t r (later.filed small).issued there in
    let (d, rest, some_) = base36-ne-nil k in
    let given : is_empty t ≡ false = rw (number, some_) refl in
    (r, served, rw (given, there) refl, rw there refl)
