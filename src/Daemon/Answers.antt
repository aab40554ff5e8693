-- ===== src/Daemon/Answers.antt =====
-- What the answers of the daemon say, and how bodies and cookies are read.
use tls_forge.Base.{
  ℕ, List, [], ◌∷◌, Option, none, some, ◌≡◌, inl, inr, refl, ap₂, ◌∙◌, if◌then◌else◌, Bool-cases,
  Text, trim_space, cut_text,
}
use tls_forge.Header.{Header}
use tls_forge.Cookie as cookie
use tls_forge.Cookie.{parse_pair, named_pair}
use tls_forge.Daemon.{
  Request, Response, Result, ok, err, ◌>>=◌, is_blank, Base64, decode_body, encode_body, valid,
  validate_response_headers, parse_cookies, pair_of,
}
use tls_forge.Daemon.Serve.{
  Outgoing, Outcome, replied, refused, outgoing, response_of, answer, answered, handle, serve_lines,
}

-- A body that is written is read back, whether it is text or not.
pub decode_body-encode_body :
    (base64 : Base64) (body : Text)
    → ((s : Text) → base64.decode (base64.encode s) ≡ some s)
    → decode_body base64 (encode_body base64 body).0 (encode_body base64 body).1 ≡ ok body
unfolding decode_body encode_body
decode_body-encode_body base64 body law = elim (Bool-cases (valid body)) [
  | inl text ↦ rw text refl
  | inr bytes ↦ rw bytes (rw (law body) refl)
]

id_of : (base64 : Base64) (id : ℕ) (outcome : Outcome) → (answer base64 id outcome).id ≡ id
id_of base64 id (refused message) = refl
id_of base64 id (replied res) = go (validate_response_headers res.header)
  where
    go : (r : Result (Unit {0})) → (response_of base64 id res r).id ≡ id
    go (ok u) = refl
    go (err e) = refl

unfoldable pub ids : List Response → List ℕ
ids [] = []
ids (r ∷ responses) = r.id ∷ ids responses

module _ {σ : Type 0} (base64 : Base64) (decode : Text → Request × Option Text) (profile : Header)
    (send : σ → Outgoing → Outcome × σ) where
  id-answered :
      (id : ℕ) (client : σ) (r : Result Outgoing)
      → (answered base64 decode profile send id client r).0.id ≡ id
  id-answered id client (ok request) = id_of base64 id (send client request).0
  id-answered id client (err e) = refl

  -- Whatever becomes of a line, its answer has the id that the line was decoded with.
  pub id-handle :
      (line : Text) (client : σ)
      → (handle base64 decode profile send line client).0.id ≡ (decode line).0.id
  unfolding handle
  id-handle line client =
      id-answered (decode line).0.id client
        (outgoing base64 profile (decode line).0 (decode line).1)

  -- The ids of the lines that are not blank, up to one that is too long.
  unfoldable pub requested : List (Option Text) → List ℕ
  requested [] = []
  requested (none ∷ lines) = []
  requested (some text ∷ lines) =
      let rest = requested lines in
      if is_blank (trim_space text) then rest else (decode (trim_space text)).0.id ∷ rest

  -- The daemon answers each line that is not blank, in order and once, with the line's id, until
  -- its input ends or a line is too long.
  pub ids-serve_lines :
      (lines : List (Option Text)) (client : σ)
      → ids (serve_lines base64 decode profile send lines client).0 ≡ requested lines
  unfolding serve_lines ids requested
  ids-serve_lines [] client = refl
  ids-serve_lines (none ∷ lines) client = refl
  ids-serve_lines (some text ∷ lines) client = elim (Bool-cases (is_blank (trim_space text))) [
    | inl blank ↦ rw (serve_lines, blank) (ids-serve_lines lines client)
    | inr asked ↦
        rw (serve_lines, asked)
          (ap₂ (◌∷◌) (id-handle (trim_space text) client)
            (ids-serve_lines lines (handle base64 decode profile send (trim_space text) client).1))
  ]

abbrev pub ok_of {ℓ} : {A : Type ℓ} → Result A → Option A
ok_of (ok a) = some a
ok_of (err e) = none

abbrev pub pair_text : cookie.Result cookie.Cookie → Option (Text × Text)
pair_text (cookie.ok c) = some (c.name, c.value)
pair_text (cookie.err e) = none

abbrev pub both : Option (Text × Text) → Option (List (Text × Text)) → Option (List (Text × Text))
both none cookies = none
both (some c) none = none
both (some c) (some cookies) = some (c ∷ cookies)

-- Each entry read by `Parse` of the cookie package.
pub parsed_all : List Text → Option (List (Text × Text))
parsed_all [] = some []
parsed_all (entry ∷ raw) = both (pair_text (parse_pair entry)) (parsed_all raw)

blank_same : (s : Text) → is_blank s ≡ cookie.is_blank s
blank_same [] = refl
blank_same (c ∷ s) = refl

pair_same :
    (entry : Text) (found : Option (Text × Text))
    → ok_of (pair_of entry found) ≡ pair_text (named_pair entry found)
pair_same entry none = refl
pair_same entry (some (name, value)) = elim (Bool-cases (cookie.is_blank (trim_space name))) [
  | inl blank ↦ rw (blank_same (trim_space name), blank) refl
  | inr named ↦ rw (blank_same (trim_space name), named) refl
]

both-ok_of :
    (c : Result (Text × Text)) (cs : Result (List (Text × Text)))
    → ok_of (c >>= λ x. cs >>= λ xs. ok (x ∷ xs)) ≡ both (ok_of c) (ok_of cs)
both-ok_of (ok c) (ok cs) = refl
both-ok_of (ok c) (err e) = refl
both-ok_of (err e) cs = refl

-- The daemon accepts the same `name=value` entries as the cookie package, with the same names and
-- values, and a list of them only if it accepts each.
pub parse_cookies-parsed_all : (raw : List Text) → ok_of (parse_cookies raw) ≡ parsed_all raw
unfolding parse_cookies parsed_all
parse_cookies-parsed_all [] = refl
parse_cookies-parsed_all (entry ∷ raw) =
    both-ok_of (pair_of entry (cut_text b'=' entry)) (parse_cookies raw)
    ∙ ap₂ both (pair_same entry (cut_text b'=' entry) ∙ unfold parse_pair in refl)
        (parse_cookies-parsed_all raw)
