-- ===== src/Joblist.antt =====
-- cmd/tls-forge/joblist.go: reading the list of URLs of a batch. Reading a file and decoding JSON
-- and CSV text are library calls: what they give comes in as an argument. The stream that may be
-- interrupted is read to its end here.
pub mod Lines
pub mod Checks
mod Examples
use tls_forge.Base.{
  ℕ, ◌+◌, ◌-◌, Bool, true, false, not, ◌&&◌, ◌||◌, List, [], ◌∷◌, ◌++◌, Option, none, some, leb,
  ◌==◌, if◌then◌else◌, Text, codes, text_eq, to_lower, has_prefix, split, length, drop, get_elem?,
  is_space, trim_space, scan_lines,
}

pub record Job : Type 0 where
  pub url : Text
  pub proxy : Text
  pub occurrence : ℕ

abbrev pub job : Text → Text → Job
job url proxy = record { url = url; proxy = proxy; occurrence = 0 }

pub data Format : Type 0 where
  lines json csv : Format

pub data Problem : Type 0 where
  no_url not_http : ℕ → Problem

pub data Error : Type 0 where
  bad_format : Text → Error
  no_file line_too_long bad_json bad_csv no_urls : Error
  bad_entry : ℕ → Error
  problems : List Problem → Error

pub data Result {ℓ} (A : Type ℓ) : Type ℓ where
  ok : A → Result A
  err : Error → Result A

infixl 5 ◌>>=◌
abbrev pub ◌>>=◌ {ℓ κ} : {A : Type ℓ} {B : Type κ} → Result A → (A → Result B) → Result B
ok a >>= f = f a
err e >>= f = err e

abbrev pub is_blank : Text → Bool
is_blank [] = true
is_blank (c ∷ s) = false

-- `strings.HasSuffix`
unfoldable pub has_suffix : Text → Text → Bool
unfolding text_eq
has_suffix s suffix =
    leb (length suffix) (length s) && text_eq (drop (length s - length suffix) s) suffix

unfoldable pub resolve_format : Text → Text → Result Format
unfolding has_suffix to_lower
resolve_format format path =
    if text_eq format (codes "lines")
    then ok lines
    else if text_eq format (codes "json")
    then ok json
    else if text_eq format (codes "csv")
    then ok csv
    else if text_eq format (codes "auto")
    then ok (
        if has_suffix (to_lower path) (codes ".json")
        then json
        else if has_suffix (to_lower path) (codes ".csv")
        then csv
        else lines)
    else err (bad_format format)

unfoldable pub jobs_from_urls : List Text → List Job
jobs_from_urls [] = []
jobs_from_urls (url ∷ urls) = job url [] ∷ jobs_from_urls urls

-- The loop of `splitInline`.
unfoldable pub trimmed_parts : List Text → List Text
unfolding trim_space
trimmed_parts [] = []
trimmed_parts (part ∷ parts) =
    let urls = trimmed_parts parts in
    if not (is_blank (trim_space part)) then trim_space part ∷ urls else urls

unfoldable pub split_inline : Text → List Job
unfolding trimmed_parts jobs_from_urls split
split_inline value = jobs_from_urls (trimmed_parts (split b',' value))

-- `line[:split]` and `line[split:]` at the first white space, or all of the line and nothing.
abbrev pub onto : ℕ → Text × Text → Text × Text
onto c (url, proxy) = (c ∷ url, proxy)

unfoldable pub at_space : Text → Text × Text
at_space [] = ([], [])
at_space (c ∷ s) = let rest = onto c (at_space s) in if is_space c then ([], c ∷ s) else rest

abbrev pub job_of : Text × Text → Job
job_of (url, proxy) = job (trim_space url) (trim_space proxy)

-- One round of the loop of `decodeLineJobs`; `none` is `continue`.
unfoldable pub line_job : Text → Option Job
unfolding at_space trim_space has_prefix
line_job text =
    let line = trim_space text in
    if is_blank line || has_prefix line (codes "#") then none else some (job_of (at_space line))

abbrev pub cons_some : Option Job → List Job → List Job
cons_some none jobs = jobs
cons_some (some j) jobs = j ∷ jobs

unfoldable pub line_jobs : List (Option Text) → Result (List Job)
unfolding line_job
line_jobs [] = ok []
line_jobs (none ∷ rest) = err line_too_long
line_jobs (some text ∷ rest) = line_jobs rest >>= λ jobs. ok (cons_some (line_job text) jobs)

-- `1024*1024`
abbrev pub max_line : ℕ
max_line = 1048576

unfoldable pub decode_line_jobs : Text → Result (List Job)
unfolding line_jobs scan_lines
decode_line_jobs content = line_jobs (scan_lines max_line content)

-- An element of a JSON array, as it decodes: a string, an object without unknown keys, or neither.
pub data Item : Type 0 where
  text : Text → Item
  object : (url proxy : Text) → Item
  other : Item

-- `i` counts from 0.
unfoldable pub item_jobs : ℕ → List Item → Result (List Job)
unfolding trim_space
item_jobs i [] = ok []
item_jobs i (text url ∷ items) =
    item_jobs (i + 1) items >>= λ jobs. ok (job (trim_space url) [] ∷ jobs)
item_jobs i (object url proxy ∷ items) =
    item_jobs (i + 1) items >>= λ jobs. ok (job (trim_space url) (trim_space proxy) ∷ jobs)
item_jobs i (other ∷ items) = err (bad_entry (i + 1))

unfoldable pub decode_json_jobs : Option (List Item) → Result (List Job)
unfolding item_jobs
decode_json_jobs none = err bad_json
decode_json_jobs (some items) = item_jobs 0 items

-- `urlAt` and `proxyAt`, `none` where they are below 0: the last column of a name counts.
pub record Columns : Type 0 where
  pub url_at : Option ℕ
  pub proxy_at : Option ℕ

abbrev pub seen_column : ℕ → Text → Columns → Columns
seen_column i name at =
    if text_eq name (codes "url")
    then record at { url_at = some i }
    else if text_eq name (codes "proxy")
    then record at { proxy_at = some i }
    else at

unfoldable pub columns_loop : ℕ → Columns → List Text → Columns
unfolding text_eq to_lower trim_space
columns_loop i at [] = at
columns_loop i at (name ∷ row) =
    columns_loop (i + 1) (seen_column i (to_lower (trim_space name)) at) row

unfoldable pub columns : List Text → Columns
unfolding columns_loop
columns row = columns_loop 0 (record { url_at = none; proxy_at = none }) row

unfoldable pub field : List Text → Option ℕ → Text
field record_ none = []
field record_ (some at) = or_empty (get_elem? record_ at)
  where
    or_empty : Option Text → Text
    or_empty none = []
    or_empty (some cell) = cell

unfoldable pub record_jobs : Columns → List (List Text) → List Job
unfolding field trim_space
record_jobs at [] = []
record_jobs at (row ∷ rows) =
    job (trim_space (field row at.url_at)) (trim_space (field row at.proxy_at))
    ∷ record_jobs at rows

abbrev pub positional : Columns
positional = record { url_at = some 0; proxy_at = some 1 }

-- With a header row, the rows behind it by name; otherwise all rows by position.
abbrev pub by_header : List (List Text) → List (List Text) → Columns → List Job
by_header all rows at = elim at.url_at [
  | none ↦ record_jobs positional all
  | some i ↦ record_jobs at rows
]

unfoldable pub decode_csv_jobs : Option (List (List Text)) → Result (List Job)
unfolding columns record_jobs
decode_csv_jobs none = err bad_csv
decode_csv_jobs (some []) = ok []
decode_csv_jobs (some (row ∷ rows)) = ok (by_header (row ∷ rows) rows (columns row))

-- The loop of `validate`; `i` counts from 0.
abbrev pub is_http : Text → Bool
is_http url = has_prefix url (codes "http://") || has_prefix url (codes "https://")

unfoldable pub problems_from : ℕ → List Job → List Problem
unfolding has_prefix
problems_from i [] = []
problems_from i (j ∷ jobs) =
    let rest = problems_from (i + 1) jobs in
    if is_blank j.url
    then no_url (i + 1) ∷ rest
    else if not (is_http j.url)
    then not_http (i + 1) ∷ rest
    else rest

abbrev pub verdict : List Problem → Option Error
verdict [] = none
verdict (p ∷ found) = some (problems (p ∷ found))

-- `none` is the nil error.
unfoldable pub validate : List Job → Option Error
unfolding problems_from
validate [] = some no_urls
validate (j ∷ jobs) = verdict (problems_from 0 (j ∷ jobs))

-- What a source holds, as text and as its decoders read it.
pub record Source : Type 0 where
  pub content : Text
  pub items : Option (List Item)
  pub records : Option (List (List Text))

unfoldable pub decode_jobs : Source → Format → Result (List Job)
unfolding decode_line_jobs decode_json_jobs decode_csv_jobs
decode_jobs source json = decode_json_jobs source.items
decode_jobs source csv = decode_csv_jobs source.records
decode_jobs source lines = decode_line_jobs source.content

abbrev pub from_file : Option Source → Format → Result (List Job)
from_file none format = err no_file
from_file (some source) format = decode_jobs source format

abbrev pub from_rest : List Text → Source → Format → Result (List Job)
from_rest [] stdin format = decode_jobs stdin format
from_rest (url ∷ urls) stdin format = ok (jobs_from_urls (url ∷ urls))

-- `file` is what the path opens, if it does.
unfoldable pub read_jobs :
    Text → Text → Text → List Text → Option Source → Source → Result (List Job)
unfolding resolve_format split_inline jobs_from_urls decode_jobs
read_jobs inline path format args file stdin = do
  resolved ← resolve_format format path
  if not (is_blank inline)
      then ok (split_inline inline)
      else if not (is_blank path)
      then from_file file resolved
      else from_rest args stdin resolved
