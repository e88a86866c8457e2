-- ===== src/Application/Domain/Host.antt =====
-- The host that an entry is split into.
use liteploy.Common.{
  ℕ, nat_beq, ◌≡◌, ◌≢◌, ap, refl, ◌⊎◌, inl, inr, true, false, [], ◌∷◌, arith, Bool-cases, All,
  is_empty, ok, err,
}
use liteploy.Common.Text.{Text, codes, trim_space, to_lower, lower_byte, includes}
use liteploy.Common.Text.Bytes.{
  IsFree, before-IsFree, includes-IsFree, All-trim_space, All-to_lower, All-before,
  first_part-split, to_lower-lower,
}
use liteploy.Application.Domain.{
  split_host, clean_host, without_scheme, parse_domain_route, HostPath, domain_empty,
  normalize_path,
}
use liteploy.Application.Domain.Normal.{IsNormal, normalize_path-IsNormal}

split_host-IsFree : (entry : Text) → IsFree b'/' (split_host entry).0
unfolding split_host
split_host-IsFree entry = elim (Bool-cases (includes entry (codes "/"))) [
  | inl e ↦ rw e (before-IsFree b'/' entry)
  | inr e ↦ rw e (includes-IsFree b'/' entry e)
]

-- What holds of the bytes, in either case, holds of the host's.
module _ (P : ℕ → Type 0) where
  All-clean_host : (raw : Text) → All P (to_lower raw) → All P (clean_host raw)
  unfolding clean_host
  All-clean_host raw h = elim (Bool-cases (includes (trim_space (to_lower raw)) (codes ":"))) [
    | inl e ↦ rw e (
        rw (first_part-split b':' (trim_space (to_lower raw)))
          (All-before P b':' _ (All-trim_space P _ h)))
    | inr e ↦ rw e (All-trim_space P _ h)
  ]

clean_host-IsFree_colon : (raw : Text) → IsFree b':' (clean_host raw)
unfolding clean_host
clean_host-IsFree_colon raw = elim (Bool-cases (includes (trim_space (to_lower raw)) (codes ":"))) [
  | inl e ↦ rw e (rw (first_part-split b':' (trim_space (to_lower raw))) (before-IsFree b':' _))
  | inr e ↦ rw e (includes-IsFree b':' _ e)
]

lower_byte-not_slash : (c : ℕ) → nat_beq c b'/' ≡ false → nat_beq (lower_byte c) b'/' ≡ false
lower_byte-not_slash c h = ground arith

nil_of_is_empty : (t : Text) → is_empty t ≡ true → t ≡ []
nil_of_is_empty [] h = refl
nil_of_is_empty (c ∷ t) h = cc

-- What every parsed entry has: a host in lower case with no slash and no colon, and a normal path.
pub record IsParsed (r : HostPath) : Type 0 where
  pub no_slash : IsFree b'/' r.host
  pub no_colon : IsFree b':' r.host
  pub lower : All (λ c. lower_byte c ≡ c) r.host
  pub normal : IsNormal r.path

-- An entry is refused exactly if it is blank; any other is split into a host in lower case, without
-- slash or colon, and a path that is normal.
pub parse_domain_route_result :
    (raw : Text)
    → ((trim_space raw ≡ []) × (parse_domain_route raw ≡ err domain_empty))
      ⊎ ((trim_space raw ≢ []) × ((r : HostPath) × (parse_domain_route raw ≡ ok r) × IsParsed r))
unfolding parse_domain_route
parse_domain_route_result raw = elim (Bool-cases (is_empty (trim_space raw))) [
  | inl e ↦ inl (nil_of_is_empty (trim_space raw) e, rw e refl)
  | inr e ↦
      let parts : Text × Text = split_host (without_scheme (trim_space raw)) in
      inr (
        (λ q. ground (arith, ap is_empty q)),
        (
          record { host = clean_host parts.0; path = normalize_path parts.1 },
          rw e refl,
          record {
            no_slash =
                All-clean_host (λ c. nat_beq c b'/' ≡ false) parts.0
                  (All-to_lower _ parts.0 lower_byte-not_slash
                    (split_host-IsFree (without_scheme (trim_space raw))));
            no_colon = clean_host-IsFree_colon parts.0;
            lower = All-clean_host (λ c. lower_byte c ≡ c) parts.0 (to_lower-lower parts.0);
            normal = normalize_path-IsNormal parts.1;
          },
        ),
      )
]
