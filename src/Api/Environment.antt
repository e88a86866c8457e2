-- ===== src/Api/Environment.antt =====
-- internal/api/handlers_extra.go: the environment that a form says.
use liteploy.Common.{
  ℕ, ◌-◌, ◌≡◌, ◌≢◌, refl, ap, sym, ◌∙◌, ◌↔◌, ◌⊎◌, inl, inr, Bool, false, ◌&&◌, ◌||◌, Option, none,
  some, List, [], ◌∷◌, ltb, nat_beq, if◌then◌else◌, is_empty, length, take, drop, arith, Bool-cases,
}
use liteploy.Common.Text.{
  Text, codes, text_eq, trim_space, has_prefix, strip_prefix, has_suffix, strip_suffix, split,
  before, from_byte,
}
use liteploy.Common.Table.{Table, put}
use liteploy.Http.{Request, form_value}
use liteploy.Api.Forms.{form_values}

abbrev quoted_with : Text → Text → Bool
quoted_with q v = has_prefix v q && has_suffix v q

abbrev is_quoted : Text → Bool
is_quoted v = quoted_with (codes "\"") v || quoted_with (codes "'") v

-- `v[1 : len(v)-1]` where the value stands in quotes. The slice of one byte panics, which is `none`.
unfoldable pub unquote : Text → Option Text
unquote v =
    if is_quoted v
    then if ltb (length v) 2 then none else some (take (length v - 1 - 1) (drop 1 v))
    else some v

abbrev put_value : Table Text → Text → Option Text → Option (Table Text)
put_value env k none = none
put_value env k (some v) = some (if is_empty k then env else put env k v)

abbrev pair_of : Table Text → Text → Text → Option (Table Text)
pair_of env k [] = some env
pair_of env k (_ ∷ v) = put_value env (trim_space k) (unquote (trim_space v))

-- A line of the text: empty ones, comments and ones without "=" are left out.
unfoldable pub env_line : Table Text → Text → Option (Table Text)
unfolding unquote
env_line env raw =
    let line = trim_space raw in
    if is_empty line || has_prefix line (codes "#")
    then some env
    else pair_of env (before b'=' line) (from_byte b'=' line)

unfoldable pub env_lines : List Text → Table Text → Option (Table Text)
unfolding env_line
env_lines [] env = some env
env_lines (line ∷ lines) env = elim (env_line env line) [
  | none ↦ none
  | some env' ↦ env_lines lines env'
]

unfoldable pub env_pairs : List Text → List Text → Table Text → Table Text
env_pairs (k ∷ ks) (v ∷ vs) env =
    env_pairs ks vs (if is_empty (trim_space k) then env else put env (trim_space k) v)
env_pairs _ _ env = env

-- The text area, or the pairs of fields where it is empty.
unfoldable pub env_of_form : Request → Option (Table Text)
unfolding env_lines env_pairs
env_of_form r =
    let raw = form_value r (codes "raw_env") in
    if is_empty raw
    then some (env_pairs (form_values r (codes "env_key[]")) (form_values r (codes "env_val[]")) [])
    else env_lines (split b'\n' raw) []

filled : (t : Text) → some t ≢ none
filled t q = cc

one_quote : (c : ℕ) → unquote (c ∷ []) ≡ none → (c ∷ [] ≡ codes "\"") ⊎ (c ∷ [] ≡ codes "'")
unfolding unquote has_prefix strip_prefix has_suffix strip_suffix
one_quote c h = elim (Bool-cases (nat_beq c 34)) [
  | inl e ↦ inl (ap (λ x. x ∷ []) (ground arith))
  | inr e ↦ elim (Bool-cases (nat_beq c 39)) [
    | inl q ↦ inr (ap (λ x. x ∷ []) (ground arith))
    | inr q ↦ ground arith
  ]
]

-- The handler panics on a value exactly if it is one quotation mark.
pub unquote_panics : (v : Text) → (unquote v ≡ none) ↔ ((v ≡ codes "\"") ⊎ (v ≡ codes "'"))
unfolding unquote has_prefix strip_prefix has_suffix strip_suffix
unquote_panics v = (quote_of v, none_of)
  where
    quote_of : (t : Text) → unquote t ≡ none → (t ≡ codes "\"") ⊎ (t ≡ codes "'")
    quote_of [] h = ground arith
    quote_of (c ∷ []) h = one_quote c h
    quote_of (c ∷ d ∷ t) h = elim (Bool-cases (is_quoted (c ∷ d ∷ t))) [
      | inl e ↦ absurd (
          filled (take (length (c ∷ d ∷ t) - 1 - 1) (drop 1 (c ∷ d ∷ t)))
            (sym (rw (e, long, unquote) refl) ∙ h))
      | inr e ↦ absurd (filled (c ∷ d ∷ t) (sym (rw (e, unquote) refl) ∙ h))
    ]
      where
        long : ltb (length (c ∷ d ∷ t)) 2 ≡ false
        long = ground arith

    none_of : (v ≡ codes "\"") ⊎ (v ≡ codes "'") → unquote v ≡ none
    none_of (inl e) = ap unquote e
    none_of (inr e) = ap unquote e
