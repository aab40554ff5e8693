-- ===== src/Cookie.antt =====
-- cookie/cookie.go: the file of warmed sessions. A time is `none` where Go's is zero, otherwise
-- its seconds since 1970 and nanoseconds. Decoding JSON text is encoding/json's and a parameter;
-- a browser's fractional expiry date arrives in it as an instant.
pub mod Netscape
pub mod Load
mod Examples
pub mod Lines
pub mod Written
pub mod RoundTrip
pub mod Lost
pub mod Sets
pub mod Unique
use tls_forge.Base.{
  ℤ, pos, negsuc, ℕ, zero, suc, ◌+◌, Bool, true, false, not, ◌&&◌, ◌||◌, List, [], ◌∷◌, ◌++◌,
  Option, none, some, ltb, leb, ◌==◌, if◌then◌else◌, Text, codes, text_eq, contains, decimal, ℤ,
  ltb_ℤ, pos_part, neg_part, length, cut_text, trim_space, join, get_elem?, sort, text_leb,
}

pub record Instant : Type 0 where
  pub seconds : ℤ
  pub nanos : ℕ

pub record Cookie : Type 0 where
  pub name : Text
  pub value : Text
  pub domain : Text
  pub path : Text
  pub secure : Bool
  pub http_only : Bool
  pub expires : Option Instant

pub record Set : Type 0 where
  pub id : Text
  pub note : Text
  pub warmed : Option Instant
  pub cookies : List Cookie

pub record File : Type 0 where
  pub version : ℤ
  pub sets : List Set

-- The errors, one for each message, with what the message names.
pub data Error : Type 0 where
  empty_file bad_json unnamed_in_list no_sets no_source no_cookies line_too_long : Error
  few_fields : (line fields : ℕ) → Error
  bad_expiry bad_flag : (line : ℕ) (field : Text) → Error
  no_name : (line : ℕ) → Error
  duplicate_id unnamed_in_set bad_pair : Text → Error
  no_such_set : Text → List Text → Error

pub data Result {ℓ} (A : Type ℓ) : Type ℓ where
  ok : A → Result A
  err : Error → Result A

infixl 5 ◌>>=◌
abbrev pub ◌>>=◌ {ℓ κ} : {A : Type ℓ} {B : Type κ} → Result A → (A → Result B) → Result B
ok a >>= f = f a
err e >>= f = err e

abbrev pub current_version : ℤ
current_version = pos 1

-- A version that is 0 stands for the current one.
abbrev pub version_or : ℤ → ℤ
version_or (pos n) = if n == 0 then current_version else pos n
version_or (negsuc n) = negsuc n

abbrev pub is_blank : Text → Bool
is_blank [] = true
is_blank (c ∷ s) = false

-- `a.After(b)`
unfoldable pub after : Instant → Instant → Bool
after a b = ltb_ℤ b.seconds a.seconds || not (ltb_ℤ a.seconds b.seconds) && ltb b.nanos a.nanos

abbrev pub past : Option Instant → Instant → Bool
past none at = false
past (some t) at = not (after t at)

unfoldable pub expired : Cookie → Instant → Bool
unfolding after
expired c at = past c.expires at

unfoldable pub live_cookies : List Cookie → Instant → List Cookie
unfolding expired
live_cookies [] at = []
live_cookies (c ∷ cookies) at =
    let kept = live_cookies cookies at in if not (expired c at) then c ∷ kept else kept

unfoldable pub live : Set → Instant → Set
unfolding live_cookies
live s at = record s { cookies = live_cookies s.cookies at }

pub record BrowserCookie : Type 0 where
  pub name : Text
  pub value : Text
  pub domain : Text
  pub path : Text
  pub secure : Bool
  pub http_only_snake : Bool
  pub http_only_camel : Bool
  pub expires : Option Instant
  pub expiration_date : Option Instant

abbrev pub first_some {ℓ} : {A : Type ℓ} → Option A → Option A → Option A
first_some none b = b
first_some (some a) b = some a

unfoldable pub to_cookie : BrowserCookie → Cookie
to_cookie b = record {
  name = b.name;
  value = b.value;
  domain = b.domain;
  path = b.path;
  secure = b.secure;
  http_only = b.http_only_snake || b.http_only_camel;
  expires = first_some b.expires b.expiration_date;
}

-- The inner loop of `validate`.
unfoldable pub all_named : Text → List Cookie → Result (Unit {0})
all_named id [] = ok tt
all_named id (c ∷ cookies) =
    let rest = all_named id cookies in if is_blank c.name then err (unnamed_in_set id) else rest

-- The outer loop, with the ids seen so far.
unfoldable pub validate_sets : List Text → List Set → Result (Unit {0})
unfolding contains all_named
validate_sets ids [] = ok tt
validate_sets ids (s ∷ sets) =
    let rest = all_named s.id s.cookies >>= λ _. validate_sets (s.id ∷ ids) sets in
    if contains s.id ids then err (duplicate_id s.id) else rest

unfoldable pub validate : File → Result File
unfolding validate_sets
validate file = validate_sets [] file.sets >>= λ _. ok file

-- The loop of `named`; `i` counts from 0.
unfoldable pub named_sets : ℕ → List Set → List Set
unfolding decimal
named_sets i [] = []
named_sets i (s ∷ sets) =
    (if is_blank s.id then record s { id = decimal (i + 1) } else s) ∷ named_sets (i + 1) sets

unfoldable pub named : File → File
unfolding named_sets
named f = record { version = version_or f.version; sets = named_sets 0 f.sets }

unfoldable pub ids_of : List Set → List Text
ids_of [] = []
ids_of (s ∷ sets) = s.id ∷ ids_of sets

abbrev pub ids : File → List Text
ids f = ids_of f.sets

-- `fmt.Sprintf("%s-%d", set.ID, n)`
abbrev pub numbered : Text → ℕ → Text
numbered id n = id ++ (b'-' ∷ decimal n)

-- `for n := 2; taken[unique]; n++`: as long as there are ids, one more round than there are is
-- enough. `none` is the fuel running out.
unfoldable pub unique_loop : ℕ → List Text → Text → Text → ℕ → Option Text
unfolding contains
unique_loop zero taken id unique n = none
unique_loop (suc fuel) taken id unique n = elim (contains unique taken) [
  | true ↦ unique_loop fuel taken id (numbered id n) (n + 1)
  | false ↦ some unique
]

abbrev pub id_or_one : Text → Text
id_or_one id = if is_blank id then codes "1" else id

abbrev pub added : File → Set → Option Text → Option File
added f set none = none
added f set (some unique) = some (record f { sets = f.sets ++ record set { id = unique } ∷ [] })

unfoldable pub add : File → Set → Option File
unfolding unique_loop
add f set =
    let id = id_or_one set.id in
    added f set (unique_loop (suc (suc (length (ids f)))) (ids f) id id 2)

unfoldable pub find_set : List Set → Text → Option Set
unfolding text_eq
find_set [] id = none
find_set (s ∷ sets) id = if text_eq s.id id then some s else find_set sets id

abbrev pub found_or {ℓ} : {A : Type ℓ} → Error → Option A → Result A
found_or e none = err e
found_or e (some a) = ok a

-- The random source is the draw that `pick.Intn` makes below its argument; an index past the sets,
-- which no draw is, panics in Go and is `no_sets` here.
unfoldable pub pick_any : List Set → Option (ℕ → ℕ) → Result Set
pick_any (s ∷ []) pick = ok s
pick_any sets none = err no_source
pick_any sets (some intn) = found_or no_sets (get_elem? sets (intn (length sets)))

unfoldable pub pick_set : File → Text → Option (ℕ → ℕ) → Result Set
unfolding find_set pick_any
pick_set f id pick =
    if length f.sets == 0
    then err no_sets
    else if is_blank id
    then pick_any f.sets pick
    else found_or (no_such_set id (sort text_leb (ids f))) (find_set f.sets id)

abbrev pub named_pair : Text → Option (Text × Text) → Result Cookie
named_pair pair none = err (bad_pair pair)
named_pair pair (some (name, value)) =
    if is_blank (trim_space name)
    then err (bad_pair pair)
    else ok (record {
      name = trim_space name;
      value = trim_space value;
      domain = [];
      path = [];
      secure = false;
      http_only = false;
      expires = none;
    })

unfoldable pub parse_pair : Text → Result Cookie
unfolding cut_text trim_space
parse_pair pair = named_pair pair (cut_text b'=' pair)
