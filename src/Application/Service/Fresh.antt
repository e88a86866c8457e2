-- ===== src/Application/Service/Fresh.antt =====
-- The ids that `GenerateID` gives out.
use liteploy.Common.{
  ℕ, ◌+◌, ◌^◌, ◌≤◌, ◌<◌, ◌≡◌, refl, ap, ◌∙◌, inl, inr, none, [], ◌∷◌, ◌++◌, ◌==◌, ltb,
  if◌then◌else◌, arith, Bool-cases, All,
}
use liteploy.Common.Text.{Text, codes, text_eq, text_beq_iff, strip_prefix}
use liteploy.Common.Table.{Table, get}
use liteploy.Common.Decimal.{print_padded, scan, scan_after}
use liteploy.Common.Decimal.RoundTrip.{scan-print_padded}
use liteploy.Application.Types.{Application}
use liteploy.Application.Service.{Service, max_app_number, generate_id}

abbrev number_of : Text → ℕ
number_of id = scan_after (codes "app-") id

abbrev next_number : Text → ℕ → ℕ
next_number id m = if ltb m (number_of id) then number_of id else m

max_app_number-ge : (t : Table Application) (m : ℕ) → m ≤ max_app_number t m
unfolding max_app_number
max_app_number-ge [] m = omega arith
max_app_number-ge ((id, a) ∷ t) m = ground (arith, max_app_number-ge t (next_number id m))

max_app_number-bound :
    (t : Table Application) (m : ℕ) → All (λ e. number_of e.0 ≤ max_app_number t m) t
unfolding max_app_number
max_app_number-bound [] m = tt
max_app_number-bound ((id, a) ∷ t) m = (
  ground (arith, max_app_number-ge t (next_number id m)),
  max_app_number-bound t (next_number id m),
)

none_above :
    (t : Table Application) (n : ℕ) (k : Text)
    → All (λ e. number_of e.0 ≤ n) t
    → n < number_of k
    → get t k ≡ none
unfolding get
none_above [] n k h l = refl
none_above ((id, a) ∷ t) n k h l = elim (Bool-cases (id == k)) [
  | inl e ↦ absurd (omega (arith, h.0, ap number_of ((text_beq_iff id k).0 e)))
  | inr e ↦ rw (e, get) (none_above t n k h.1 l)
]

number_of-printed : (t : Text) → number_of (codes "app-" ++ t) ≡ scan t
unfolding scan_after strip_prefix
number_of-printed t = refl

-- Below the range of `int`, no application has the id that is given out next.
pub generate_id_fresh :
    (s : Service) → max_app_number s.apps 0 + 1 < 2 ^ 63 → get s.apps (generate_id s) ≡ none
unfolding generate_id
generate_id_fresh s b =
    let n : ℕ = max_app_number s.apps 0 in
    let read : number_of (codes "app-" ++ print_padded 3 (n + 1)) ≡ n + 1 =
      number_of-printed (print_padded 3 (n + 1)) ∙ scan-print_padded 3 (n + 1) b in
    none_above s.apps n (codes "app-" ++ print_padded 3 (n + 1)) (max_app_number-bound s.apps 0)
      (omega (arith, read))
