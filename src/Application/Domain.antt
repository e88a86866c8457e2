-- ===== src/Application/Domain.antt =====
-- internal/application/application.go: entries such as "example.com/api" for a domain with a path,
-- and the check of a domain name. `domainRe` is written out label by label.
pub mod Normal
pub mod Host
use liteploy.Common.{
  ℕ, ◌≡◌, Bool, true, false, ◌&&◌, ◌||◌, not, Option, none, some, List, [], ◌∷◌, ◌++◌, ◌==◌, nat_eq,
  ltb, leb, if◌then◌else◌, length, take, drop, is_empty, all, any, fail_if, ◌>>=◌, ◌>>◌, Outcome,
  ok, err,
}
use liteploy.Common.Text.{
  Text, codes, text_eq, trim_space, to_lower, has_prefix, has_suffix, trim_suffix, trim_right,
  before, from_byte, split, first_part, includes,
}

-- The path that matches every path.
abbrev pub any_path : Text
any_path = codes "/*"

-- The path with a slash in front.
abbrev rooted : Text → Text
rooted p = if has_prefix p (codes "/") then p else b'/' ∷ p

abbrev or_any_path : Text → Text
or_any_path p = if is_empty p then any_path else p ++ any_path

unfoldable pub normalize_path : Text → Text
normalize_path raw =
    let p = trim_space raw in
    if is_empty p || p == codes "/" || p == any_path
    then any_path
    else let q = rooted p in
      if has_suffix q any_path
      then or_any_path (trim_right (trim_suffix q any_path) b'/')
      else or_any_path (trim_right q b'/')

pub data DomainError : Type 0 where
  domain_empty too_long bad_format : DomainError

pub record HostPath : Type 0 where
  pub host : Text
  pub path : Text

-- Without a scheme that was pasted with the entry. The test is on the entry in lower case.
unfoldable pub without_scheme : Text → Text
without_scheme entry =
    if has_prefix (to_lower entry) (codes "http://")
    then drop 7 entry
    else if has_prefix (to_lower entry) (codes "https://")
    then drop 8 entry
    else entry

-- The host and the path, split at the first slash.
unfoldable pub split_host : Text → Text × Text
split_host entry =
    if includes entry (codes "/")
    then (before b'/' entry, from_byte b'/' entry)
    else (entry, any_path)

-- The host in lower case, without a port.
unfoldable pub clean_host : Text → Text
clean_host raw =
    let host = trim_space (to_lower raw) in
    if includes host (codes ":") then first_part (split b':' host) else host

unfoldable pub parse_domain_route : Text → Outcome DomainError HostPath
unfolding without_scheme split_host clean_host normalize_path
parse_domain_route raw =
    let entry = trim_space raw in
    if is_empty entry
    then err domain_empty
    else let (host, path) = split_host (without_scheme entry) in
      ok (record { host = clean_host host; path = normalize_path path })

abbrev is_alpha : ℕ → Bool
is_alpha c = leb b'a' c && leb c b'z' || leb b'A' c && leb c b'Z'

abbrev pub is_alnum : ℕ → Bool
is_alnum c = is_alpha c || leb b'0' c && leb c b'9'

abbrev pub first_is : (ℕ → Bool) → Text → Bool
first_is p [] = false
first_is p (c ∷ _) = p c

abbrev pub last_is : (ℕ → Bool) → Text → Bool
last_is p [] = false
last_is p (c ∷ []) = p c
last_is p (c ∷ d ∷ t) = last_is p (d ∷ t)

-- `[a-zA-Z0-9]([a-zA-Z0-9\-]{0,61}[a-zA-Z0-9])?`
unfoldable pub is_label : Text → Bool
is_label s =
    leb (length s) 63
    && first_is is_alnum s
    && last_is is_alnum s
    && all (λ c. is_alnum c || c == b'-') s

-- `[a-zA-Z]{2,}`
unfoldable pub is_top_label : Text → Bool
is_top_label s = leb 2 (length s) && all is_alpha s

-- `(label\.)+top`
unfoldable pub are_labels : List Text → Bool
unfolding is_label is_top_label
are_labels [] = false
are_labels (s ∷ []) = false
are_labels (s ∷ t ∷ []) = is_label s && is_top_label t
are_labels (s ∷ t ∷ u ∷ r) = is_label s && are_labels (t ∷ u ∷ r)

unfoldable pub validate_domain : Text → Outcome DomainError (Unit {0})
unfolding are_labels
validate_domain d = do
  fail_if (ltb 253 (length d)) too_long
  fail_if (not (are_labels (split b'.' d))) bad_format
  ok tt
