-- ===== src/Echo/Navigation/Filed.antt =====
-- echo/server.go: the invariant of the tokens, and that the operations keep it.
use mathlib.Core.Path.{subst}
use native.Mathlib.Nat.{mod-eq_of_lt}
use tls_forge.Base.{
  ℕ, ◌+◌, ◌^◌, ◌≤◌, ◌<◌, length, length-append, Bool, true, false, List, [], ◌∷◌, Option, none,
  some, ◌≡◌, inl, inr, refl, ap, sym, ◌∙◌, arith, ◌==◌, ==_iff, Bool-cases, if_true, Text, text_eq,
  text_eq_iff, text_eq_refl,
}
use tls_forge.Profile.{is_empty}
use tls_forge.Echo.Navigation.{
  Session, Server, base36, session_at, issued, issue, known, set_navigation, with_session, report,
  reported_at, capture_session, complete,
}
use tls_forge.Echo.Navigation.Tokens.{base36_other}

-- Every token was issued: it is the text of a number up to the last.
abbrev pub AreIssued : ℕ → List (Text × ℕ) → Type 0
AreIssued n [] = Unit
AreIssued n ((t, s) ∷ by_id) = ((k : ℕ) × (t ≡ base36 k) × (k ≤ n)) × AreIssued n by_id

-- A navigation's token leads to it.
abbrev pub Leads : List (Text × ℕ) → ℕ → Bool → Text → Type 0
Leads by_id s false token = Unit
Leads by_id s true token = session_at token by_id ≡ some s

pub record IsFiled (v : Server) : Type 0 where
  pub issued : AreIssued v.next v.by_id
  pub leads : (s : ℕ) → Leads v.by_id s (v.sessions s).navigation (v.sessions s).token
  pub counted : v.next ≡ length v.navigations

-- The counter has not come round.
abbrev pub InRange : Server → Type 0
InRange v = length v.navigations < 2 ^ 64

abbrev pub FiledInRange : Server → Type 0
FiledInRange v = InRange v → IsFiled v

pub session_at-issued :
    (n : ℕ) (by_id : List (Text × ℕ)) (token : Text) (s : ℕ)
    → AreIssued n by_id
    → session_at token by_id ≡ some s
    → (k : ℕ) × (token ≡ base36 k) × (k ≤ n)
unfolding session_at
session_at-issued n [] token s h e = cc
session_at-issued n ((t, r) ∷ by_id) token s ((k, is, small), h) e =
    elim (Bool-cases (text_eq t token)) [
      | inl same ↦ (k, sym ((text_eq_iff t token).0 same) ∙ is, small)
      | inr other ↦ session_at-issued n by_id token s h (rw other at e)
    ]

-- The token that is issued next is not one of those.
pub session_at_next :
    (n : ℕ) (by_id : List (Text × ℕ)) (token : Text) (r s : ℕ)
    → AreIssued n by_id
    → session_at token by_id ≡ some s
    → session_at token ((base36 (n + 1), r) ∷ by_id) ≡ some s
session_at_next n by_id token r s h e =
    let (k, is, small) = session_at-issued n by_id token s h e in
    let other : text_eq (base36 (n + 1)) token ≡ false =
      rw is (base36_other (n + 1) k (λ p. absurd (omega (arith, p)))) in
    unfold session_at in rw other e

pub AreIssued-more : (n : ℕ) (by_id : List (Text × ℕ)) → AreIssued n by_id → AreIssued (n + 1) by_id
AreIssued-more n [] h = tt
AreIssued-more n ((t, s) ∷ by_id) ((k, is, small), h) =
    ((k, is, omega arith), AreIssued-more n by_id h)

pub Leads-next :
    (n : ℕ) (by_id : List (Text × ℕ)) (r s : ℕ) (navigation : Bool) (token : Text)
    → AreIssued n by_id
    → Leads by_id s navigation token
    → Leads ((base36 (n + 1), r) ∷ by_id) s navigation token
Leads-next n by_id r s false token h e = tt
Leads-next n by_id r s true token h e = session_at_next n by_id token r s h e

-- What the later server keeps of the earlier: every token leads where it led.
pub record IsLater (v w : Server) : Type 0 where
  pub grows : length v.navigations ≤ length w.navigations
  pub filed : FiledInRange w
  pub kept :
      InRange w
      → (token : Text) (s : ℕ) → session_at token v.by_id ≡ some s
      → session_at token w.by_id ≡ some s

pub IsLater-refl : (v : Server) → FiledInRange v → IsLater v v
IsLater-refl v is = record { grows = omega arith; filed = is; kept = λ small token s e. e }

pub IsLater-trans : (u v w : Server) → IsLater u v → IsLater v w → IsLater u w
IsLater-trans u v w a b = record {
  grows = omega (arith, a.grows, b.grows);
  filed = b.filed;
  kept = λ small token s e. b.kept small token s (a.kept (omega (arith, b.grows, small)) token s e);
}

issued-IsFiled : (v : Server) (s : ℕ) → IsFiled v → IsFiled (issued v s (v.next + 1)).1
issued-IsFiled v s is = record {
  issued = ((v.next + 1, refl, omega arith), AreIssued-more v.next v.by_id is.issued);
  leads = λ k. elim (Bool-cases (k == s)) [
    | inl here ↦
        let same : s ≡ k = sym ((==_iff k s).0 here) in
        rw here (unfold session_at in rw (text_eq_refl (base36 (v.next + 1))) (ap some same))
    | inr other ↦ rw other (
        Leads-next v.next v.by_id s k (v.sessions k).navigation (v.sessions k).token is.issued
          (is.leads k))
  ];
  counted = omega (arith, is.counted, length-append v.navigations (s ∷ []));
}

issue_in_range : (v : Server) (s : ℕ) → v.next + 1 < 2 ^ 64 → issue v s ≡ issued v s (v.next + 1)
unfolding issue
issue_in_range v s small = ap (issued v s) (mod-eq_of_lt small)

length-issue : (v : Server) (s : ℕ) → length ((issue v s).1).navigations ≡ length v.navigations + 1
unfolding issue
length-issue v s = omega (arith, length-append v.navigations (s ∷ []))

pub issue-IsLater : (v : Server) (s : ℕ) → FiledInRange v → IsLater v ((issue v s).1)
issue-IsLater v s is =
    let before : InRange ((issue v s).1) → IsFiled v =
      λ small. is (omega (arith, length-issue v s, small)) in
    let same : InRange ((issue v s).1) → issued v s (v.next + 1) ≡ issue v s = λ small.
      sym (issue_in_range v s (omega (arith, length-issue v s, small, (before small).counted))) in
    record {
      grows = omega (arith, length-issue v s);
      filed = λ small.
          subst (λ (x : Text × Server). IsFiled (x.1)) (same small)
            (issued-IsFiled v s (before small));
      kept = λ small token r e.
          subst (λ (x : Text × Server). session_at token (x.1).by_id ≡ some r) (same small)
            (session_at_next v.next v.by_id token s r (before small).issued e);
    }

-- A session that keeps its token and whether it is a navigation may change otherwise.
pub with_session-IsLater :
    (v : Server) (s : ℕ) (new : Session)
    → new.navigation ≡ (v.sessions s).navigation
    → new.token ≡ (v.sessions s).token
    → FiledInRange v
    → IsLater v (with_session v s new)
with_session-IsLater v s new n t is = record {
  grows = omega arith;
  filed = λ small. record {
    issued = (is small).issued;
    counted = (is small).counted;
    leads = λ k. elim (Bool-cases (k == s)) [
      | inl here ↦
          let same : s ≡ k = sym ((==_iff k s).0 here) in
          rw here (
            subst (λ x. Leads v.by_id k new.navigation x)
              (sym (t ∙ ap (λ x. (v.sessions x).token) same))
              (subst (λ x. Leads v.by_id k x (v.sessions k).token)
                (sym (n ∙ ap (λ x. (v.sessions x).navigation) same)) ((is small).leads k)))
      | inr other ↦ rw other ((is small).leads k)
    ];
  };
  kept = λ small token r e. e;
}

pub complete-IsLater : (v : Server) (s : ℕ) → FiledInRange v → IsLater v (complete v s)
unfolding complete
complete-IsLater v s is = record {
  grows = omega arith;
  filed = λ small.
      let i = is small in record { issued = i.issued; leads = i.leads; counted = i.counted };
  kept = λ small token r e. e;
}

abbrev pub or_pair {ℓ} : {A : Type ℓ} → A → Option A → A
or_pair d none = d
or_pair d (some a) = a

pub known-IsLater :
    (v w : Server) (token t : Text) (o : Option ℕ)
    → FiledInRange v
    → known v token o ≡ some (t, w)
    → IsLater v w
known-IsLater v w token t none is e = cc
known-IsLater v w token t (some s) is e =
    let same : v ≡ w = ap (λ (x : Option (Text × Server)). (or_pair (t, v) x).1) e in
    subst (IsLater v) same (IsLater-refl v is)

pub set_navigation-IsLater :
    (v w : Server) (s : ℕ) (token t : Text)
    → FiledInRange v
    → set_navigation v s token ≡ some (t, w)
    → IsLater v w
unfolding set_navigation
set_navigation-IsLater v w s token t is e = elim (Bool-cases (v.sessions s).navigation) [
  | inl old ↦
      let whole : some ((v.sessions s).token, v) ≡ some (t, w) = rw old at e in
      subst (IsLater v) (ap (λ (x : Option (Text × Server)). (or_pair (t, v) x).1) whole)
        (IsLater-refl v is)
  | inr new ↦ elim (Bool-cases (is_empty token)) [
    | inl own ↦
        let whole : some (issue v s) ≡ some (t, w) = rw (new, own) at e in
        subst (IsLater v) (ap (λ (x : Option (Text × Server)). (or_pair (t, v) x).1) whole)
          (issue-IsLater v s is)
    | inr given ↦ known-IsLater v w token t (session_at token v.by_id) is (rw (new, given) at e)
  ]
]

pub report-IsLater : (v : Server) (s : ℕ) → FiledInRange v → IsLater v ((report v s).1)
report-IsLater v s is =
    with_session-IsLater v s (record (v.sessions s) { reported = true }) refl refl is

pub reported_at-IsLater :
    (v w : Server) (s : ℕ) (o : Option ℕ)
    → FiledInRange v
    → reported_at v o ≡ some (s, w)
    → IsLater v w
reported_at-IsLater v w s none is e = cc
reported_at-IsLater v w s (some r) is e =
    subst (IsLater v) (ap (λ (x : Option (ℕ × Server)). (or_pair (s, v) x).1) e)
      (report-IsLater v r is)

pub capture_session-IsLater :
    (v w : Server) (token : Text) (fallback s : ℕ)
    → FiledInRange v
    → capture_session v token fallback ≡ some (s, w)
    → IsLater v w
unfolding capture_session
capture_session-IsLater v w token fallback s is e = elim (Bool-cases (is_empty token)) [
  | inl own ↦ elim (Bool-cases (v.sessions fallback).navigation) [
    | inl old ↦
        let whole : some (report v fallback) ≡ some (s, w) =
          sym (if_true (v.sessions fallback).navigation _ _ old) ∙ rw own at e in
        subst (IsLater v) (ap (λ (x : Option (ℕ × Server)). (or_pair (s, v) x).1) whole)
          (report-IsLater v fallback is)
    | inr new ↦
        let u = (issue v fallback).1 in
        let first = issue-IsLater v fallback is in
        let whole : some (report u fallback) ≡ some (s, w) = rw (own, new) at e in
        subst (IsLater v) (ap (λ (x : Option (ℕ × Server)). (or_pair (s, v) x).1) whole)
          (IsLater-trans v u _ first (report-IsLater u fallback first.filed))
  ]
  | inr given ↦ reported_at-IsLater v w s (session_at token v.by_id) is (rw given at e)
]
