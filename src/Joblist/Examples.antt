-- ===== src/Joblist/Examples.antt =====
-- A list of two URLs in each of the formats, and the theorems at it.
use tls_forge.Base.{
  List, [], ◌∷◌, some, ◌≡◌, refl, arith, codes, text_eq, to_lower, trim_space, has_prefix, split,
}
use tls_forge.Joblist.{
  Job, job, ok, err, problems, no_url, not_http, csv, resolve_format, split_inline, text, object,
  other, bad_entry, decode_json_jobs, decode_csv_jobs, decode_line_jobs, validate,
}
use tls_forge.Joblist.Lines.{line_of, lines_of, IsListed, decode_line_jobs-lines_of}

abbrev one : Job
one = job (codes "https://a") (codes "http://p")

abbrev two : Job
two = job (codes "http://b") []

abbrev jobs : List Job
jobs = one ∷ two ∷ []

one_line : line_of one ≡ codes "https://a http://p"
unfolding line_of
one_line = refl

two_line : line_of two ≡ codes "http://b"
unfolding line_of
two_line = refl

one-IsListed : IsListed one
one-IsListed = record {
  head = b'h';
  rest = codes "ttps://a";
  url_cons = refl;
  no_comment = refl;
  url_plain = refl;
  proxy_plain = refl;
  first = refl;
  short = rw one_line (omega arith);
}

two-IsListed : IsListed two
two-IsListed = record {
  head = b'h';
  rest = codes "ttp://b";
  url_cons = refl;
  no_comment = refl;
  url_plain = refl;
  proxy_plain = refl;
  first = refl;
  short = rw two_line (omega arith);
}

decode_line_jobs-lines_of_example : decode_line_jobs (lines_of jobs) ≡ ok jobs
decode_line_jobs-lines_of_example =
    decode_line_jobs-lines_of jobs (one-IsListed, (two-IsListed, tt))

formats_run :
    (decode_csv_jobs (
        some (
          (codes "proxy" ∷ codes " URL" ∷ [])
          ∷ (codes "http://p" ∷ codes "https://a" ∷ [])
          ∷ ([] ∷ codes "http://b" ∷ [])
          ∷ []))
      ≡ ok jobs)
    × (decode_csv_jobs
          (some ((codes "https://a" ∷ codes "http://p" ∷ []) ∷ (codes "http://b" ∷ []) ∷ []))
        ≡ ok jobs)
    × (decode_json_jobs
          (some (object (codes "https://a") (codes "http://p") ∷ text (codes " http://b") ∷ []))
        ≡ ok jobs)
    × (decode_json_jobs (some (text [] ∷ other ∷ [])) ≡ err (bad_entry 2))
    × (split_inline (codes "http://b, ,") ≡ two ∷ [])
    × (resolve_format (codes "auto") (codes "x.CSV") ≡ ok csv)
    × (validate (job [] [] ∷ job (codes "ftp://c") [] ∷ one ∷ [])
        ≡ some (problems (no_url 1 ∷ not_http 2 ∷ [])))
unfolding decode_csv_jobs decode_json_jobs split_inline resolve_format validate to_lower trim_space
    text_eq split has_prefix
formats_run = (refl, refl, refl, refl, refl, refl, refl)
