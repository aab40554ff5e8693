-- ===== src/Cookie/Load.antt =====
-- cookie/cookie.go: `Load`, over the decoders of encoding/json that it calls.
use tls_forge.Base.{
  Bool, List, [], ◌∷◌, Option, none, some, any, if◌then◌else◌, Text, codes, has_prefix, trim_space,
}
use tls_forge.Cookie.{
  Cookie, Set, File, BrowserCookie, Result, ok, err, ◌>>=◌, found_or, is_blank, current_version,
  to_cookie, validate, named, empty_file, bad_json, unnamed_in_list,
}
use tls_forge.Cookie.Netscape.{looks_netscape, load_netscape}

-- What each decoding gives, `none` where it reports an error: strictly into a file and into sets,
-- leniently into a list of objects, of which only a member `cookies` is looked for, and into
-- cookies as a browser spells them.
pub record Json : Type 0 where
  pub file : Text → Option File
  pub sets : Text → Option (List Set)
  pub have_cookies : Text → Option (List Bool)
  pub cookies : Text → Option (List BrowserCookie)

unfoldable pub flat_cookies : List BrowserCookie → Result (List Cookie)
unfolding to_cookie
flat_cookies [] = ok []
flat_cookies (b ∷ flat) =
    let rest = flat_cookies flat >>= λ cookies. ok (to_cookie b ∷ cookies) in
    if is_blank b.name then err unnamed_in_list else rest

abbrev pub one_set : List Cookie → File
one_set cookies = record {
  version = current_version;
  sets = record { id = codes "1"; note = []; warmed = none; cookies = cookies } ∷ [];
}

abbrev pub file_of : List Set → File
file_of sets = record { version = current_version; sets = sets }

module _ (json : Json) where
  unfoldable pub load_flat : Text → Result File
  unfolding flat_cookies validate
  load_flat trimmed = do
    flat ← found_or bad_json (json.cookies trimmed)
    cookies ← flat_cookies flat
    validate (one_set cookies)

  unfoldable pub load_array : Text → Option (List Bool) → Result File
  unfolding load_flat validate named
  load_array trimmed none = load_flat trimmed
  load_array trimmed (some []) = ok (file_of [])
  load_array trimmed (some (e ∷ entries)) =
      if any (λ is_set. is_set) (e ∷ entries)
      then (do sets ← found_or bad_json (json.sets trimmed); validate (named (file_of sets)))
      else load_flat trimmed

  unfoldable pub load_text : Text → Result File
  load_text trimmed =
      if is_blank trimmed
      then err empty_file
      else if looks_netscape trimmed
      then load_netscape trimmed
      else if has_prefix trimmed (codes "{")
      then (do file ← found_or bad_json (json.file trimmed); validate (named file))
      else load_array trimmed (json.have_cookies trimmed)

  unfoldable pub load : Text → Result File
  load content = load_text (trim_space content)
