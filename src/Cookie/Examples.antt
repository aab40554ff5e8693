-- ===== src/Cookie/Examples.antt =====
-- A file of two cookies, its cookies.txt, and the theorems about cookies at it.
use tls_forge.Base.{
  true, false, [], ◌∷◌, ◌++◌, none, some, ◌≡◌, ◌⊎◌, ◌↔◌, refl, arith, Text, codes, contains, pos,
  decimal, decimal_ℤ, is_free_of, join, trim_space, has_prefix, cut_text,
}
use tls_forge.Cookie.{
  Instant, Cookie, Set, File, ok, err, validate, ids, ids_of, unique_loop, add, parse_pair,
  few_fields, bad_pair, id_or_one,
}
use tls_forge.Cookie.Netscape.{encode_line, encode_netscape, load_netscape, imported}
use tls_forge.Cookie.Load.{Json, load}
use tls_forge.Cookie.Written.{IsWritable}
use tls_forge.Cookie.RoundTrip.{rooted_all, load_netscape-encode}
use tls_forge.Cookie.Lost.{load_lost}
use tls_forge.Cookie.Sets.{AreValid, validate_iff}
use tls_forge.Cookie.Unique.{add_lem, validate-add}

abbrev at : Instant
at = record { seconds = pos 1900000000; nanos = 0 }

abbrev session : Cookie
session = record {
  name = codes "sid";
  value = codes "abc";
  domain = codes ".a.b";
  path = [];
  secure = true;
  http_only = true;
  expires = some at;
}

abbrev flag : Cookie
flag = record session {
  name = codes "flag";
  value = [];
  domain = codes "a.b";
  http_only = false;
  expires = none;
}

abbrev one : Set
one = record { id = codes "1"; note = []; warmed = none; cookies = session ∷ [] }

abbrev ends_empty : Set
ends_empty = record one { cookies = session ∷ flag ∷ [] }

abbrev both : File
both = record { version = pos 1; sets = one ∷ record one { id = codes "1-2" } ∷ [] }

-- A decoder that takes nothing.
abbrev no_json : Json
no_json = record {
  file = λ t. none;
  sets = λ t. none;
  have_cookies = λ t. none;
  cookies = λ t. none;
}

session_line : encode_line session ≡ codes "#HttpOnly_.a.b\tTRUE\t/\tTRUE\t1900000000\tsid\tabc"
unfolding encode_line join decimal_ℤ decimal has_prefix
session_line = refl

session-IsWritable : IsWritable session
unfolding is_free_of
session-IsWritable = record {
  name_some = refl;
  domain_head = b'.';
  domain_rest = codes "a.b";
  domain_cons = refl;
  head_space = refl;
  head_comment = refl;
  domain_plain = (refl, refl, refl);
  path_plain = (refl, refl, refl);
  name_plain = (refl, refl, refl);
  value_plain = (refl, refl, refl);
  whole = (1900000000, refl, omega arith, omega arith);
  short = rw session_line (omega arith);
}

flag_line : encode_line flag ≡ codes "a.b\tFALSE\t/\tTRUE\t0\tflag\t"
unfolding encode_line join decimal_ℤ decimal has_prefix
flag_line = refl

flag-IsWritable : IsWritable flag
unfolding is_free_of
flag-IsWritable = record {
  name_some = refl;
  domain_head = b'a';
  domain_rest = codes ".b";
  domain_cons = refl;
  head_space = refl;
  head_comment = refl;
  domain_plain = (refl, refl, refl);
  path_plain = (refl, refl, refl);
  name_plain = (refl, refl, refl);
  value_plain = (refl, refl, refl);
  whole = tt;
  short = rw flag_line (omega arith);
}

load_netscape-encode_example :
    load_netscape (encode_netscape one) ≡ ok (imported (rooted_all one.cookies))
load_netscape-encode_example = load_netscape-encode one (λ e. cc) (session-IsWritable, tt)

load_lost_example : load no_json (encode_netscape ends_empty) ≡ err (few_fields 5 6)
load_lost_example =
    load_lost flag flag-IsWritable (codes "fla") b'g' refl refl refl no_json ends_empty
      (session ∷ []) refl (session-IsWritable, tt)

validate_iff_example : (validate both ≡ ok both) ↔ AreValid [] both.sets
validate_iff_example = validate_iff both

both_valid : validate both ≡ ok both
unfolding contains
both_valid = (validate_iff both).1 (refl, ((refl, tt), (refl, ((refl, tt), tt))))

add_lem_example :
    (u : Text) × (add both one
      ≡ some (record both { sets = both.sets ++ record one { id = u } ∷ [] }))
    × ((contains u (ids both) ≡ false)
        × ((u ≡ id_or_one one.id) ⊎ (contains (id_or_one one.id) (ids both) ≡ true)))
add_lem_example = add_lem both one

validate-add_example : (g : File) × (add both one ≡ some g) × (validate g ≡ ok g)
validate-add_example = validate-add both one both_valid (refl, tt)

-- Adding a third set called "1" passes over "1-2".
add_runs :
    add both one ≡ some (record both { sets = both.sets ++ record one { id = codes "1-3" } ∷ [] })
unfolding add unique_loop contains decimal ids_of
add_runs = refl

pair_runs :
    (parse_pair (codes " a = b=c ")
      ≡ ok (record flag { name = codes "a"; value = codes "b=c"; domain = []; secure = false }))
    × (parse_pair (codes "=b") ≡ err (bad_pair (codes "=b")))
unfolding parse_pair trim_space cut_text
pair_runs = (refl, refl)
