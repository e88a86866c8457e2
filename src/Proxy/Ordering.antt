-- ===== src/Proxy/Ordering.antt =====
-- The order of the routes in the configuration.
use mathlib.Core.List.{Perm}
use mathlib.Core.List.Perm
use liteploy.Common.{
  ◌≤◌, ◌≡◌, refl, sym, ◌∙◌, ap, inl, inr, Bool, true, false, not, List, [], ◌∷◌, ◌++◌, map, All,
  ◌==◌, nat_eq, if◌then◌else◌, arith, Bool-cases, length, keep_if,
}
use liteploy.Common.Text.{Text, text_eq, text_beq_iff, text_lt}
use liteploy.Common.Table.{Table}
use liteploy.Common.Sorting.{sort, IsSorted, IsWeakOrder, sort-IsSorted, sort-perm, All-sort}
use liteploy.Proxy.{Route}
use liteploy.Proxy.Config.{
  Item, items, is_catch_all, by_text, by_app, more_specific, by_host, specific_items,
  catch_all_items, build_caddy_config, dashboard_routes, specific_route, catch_all_route,
}

text_lt_asym : (s t : Text) → text_lt s t ≡ true → text_lt t s ≡ false
unfolding text_lt
text_lt_asym [] [] h = cc
text_lt_asym [] (b ∷ t) h = refl
text_lt_asym (a ∷ s) [] h = cc
text_lt_asym (a ∷ s) (b ∷ t) h = ground (arith, text_lt_asym s t)

text_lt_total : (s t : Text) → text_lt s t ≡ false → text_lt t s ≡ false → s ≡ t
unfolding text_lt
text_lt_total [] [] h k = refl
text_lt_total [] (b ∷ t) h k = cc
text_lt_total (a ∷ s) [] h k = cc
text_lt_total (a ∷ s) (b ∷ t) h k = ground (arith, text_lt_total s t)

text_lt_trans : (s t u : Text) → text_lt t s ≡ false → text_lt u t ≡ false → text_lt u s ≡ false
unfolding text_lt
text_lt_trans [] [] u h k = k
text_lt_trans [] (b ∷ t) u h k = refl
text_lt_trans (a ∷ s) [] u h k = cc
text_lt_trans (a ∷ s) (b ∷ t) [] h k = cc
text_lt_trans (a ∷ s) (b ∷ t) (c ∷ u) h k = ground (arith, text_lt_trans s t u)

abbrev lex : Bool → Bool → Bool → Bool
lex same first later = if not same then first else later

lex_trans :
    (x y z : Text) (p q r : Bool)
    → lex (y == x) (text_lt y x) p ≡ false
    → lex (z == y) (text_lt z y) q ≡ false
    → (p ≡ false → q ≡ false → r ≡ false)
    → lex (z == x) (text_lt z x) r ≡ false
lex_trans x y z p q r h k later = elim (Bool-cases (y == x)) [
  | inl e ↦
      let same : y ≡ x = (text_beq_iff y x).0 e in
      elim (Bool-cases (z == y)) [
        | inl f ↦
            let same' : z ≡ y = (text_beq_iff z y).0 f in
            ground (arith, (text_beq_iff z x).1 (same' ∙ same))
        | inr f ↦ rw (sym same) (ground arith)
      ]
  | inr e ↦ elim (Bool-cases (z == y)) [
    | inl f ↦ rw ((text_beq_iff z y).0 f) (ground arith)
    | inr f ↦ ground (
      arith,
      text_beq_iff z x,
      text_lt_trans x y z,
      text_lt_total y x,
      ap (λ t. text_lt t y),
      text_beq_iff y x,
    )
  ]
]

by_text_order :
    (key : Item → Text) (less : Item → Item → Bool)
    → IsWeakOrder less
    → IsWeakOrder (by_text key less)
by_text_order key less order = record {
  asym = λ a b h. ground (
    arith,
    text_beq_iff (key a) (key b),
    text_beq_iff (key b) (key a),
    text_lt_asym (key a) (key b),
    order.asym a b,
  );
  trans = λ a b c h k.
      lex_trans (key a) (key b) (key c) (less b a) (less c b) (less c a) h k (order.trans a b c);
}

by_app_order : IsWeakOrder by_app
by_app_order = record {
  asym = λ a b h. text_lt_asym a.app_id b.app_id h;
  trans = λ a b c h k. text_lt_trans a.app_id b.app_id c.app_id h k;
}

by_host_order : IsWeakOrder by_host
unfolding by_host
by_host_order = by_text_order (λ i. i.host) by_app by_app_order

more_specific_order : IsWeakOrder more_specific
unfolding more_specific
more_specific_order =
    let rest : IsWeakOrder (by_text (λ i. i.host) (by_text (λ i. i.path) by_app)) =
      by_text_order (λ i. i.host) (by_text (λ i. i.path) by_app)
        (by_text_order (λ i. i.path) by_app by_app_order) in
    record {
      asym = λ a b h. ground (arith, rest.asym a b);
      trans = λ a b c h k. ground (arith, rest.trans a b c);
    }

shorter_later :
    (a : Item) (xs : List Item)
    → All (λ b. more_specific b a ≡ false) xs
    → All (λ b. length b.path ≤ length a.path) xs
unfolding more_specific
shorter_later a [] h = tt
shorter_later a (b ∷ xs) h = (ground arith, shorter_later a xs h.1)

-- Each path is at least as long as every path behind it.
abbrev pub IsLongestFirst : List Item → Type 0
IsLongestFirst [] = Unit
IsLongestFirst (a ∷ xs) = All (λ b. length b.path ≤ length a.path) xs × IsLongestFirst xs

longest_first : (xs : List Item) → IsSorted more_specific xs → IsLongestFirst xs
longest_first [] h = tt
longest_first (a ∷ xs) h = (shorter_later a xs h.0, longest_first xs h.1)

All-keep_if : (p : Item → Bool) (xs : List Item) → All (λ i. p i ≡ true) (keep_if p xs)
All-keep_if p [] = tt
All-keep_if p (x ∷ xs) = elim (Bool-cases (p x)) [
  | inl e ↦ rw e (e, All-keep_if p xs)
  | inr e ↦ rw e (All-keep_if p xs)
]

All-specific :
    (xs : List Item) → All (λ i. is_catch_all i ≡ false) (keep_if (λ i. not (is_catch_all i)) xs)
All-specific [] = tt
All-specific (x ∷ xs) = elim (Bool-cases (is_catch_all x)) [
  | inl e ↦ rw e (All-specific xs)
  | inr e ↦ rw e (e, All-specific xs)
]

perm_middle : (x : Item) (xs ys : List Item) → Perm (xs ++ x ∷ ys) (x ∷ xs ++ ys)
perm_middle x [] ys = Perm.refl _
perm_middle x (z ∷ xs) ys =
    Perm.trans (Perm.cons z (perm_middle x xs ys)) (Perm.swap x z (xs ++ ys))

keep_if-perm :
    (p : Item → Bool) (xs : List Item) → Perm (keep_if (λ i. not (p i)) xs ++ keep_if p xs) xs
keep_if-perm p [] = Perm.refl _
keep_if-perm p (x ∷ xs) = elim (Bool-cases (p x)) [
  | inl e ↦ rw e (
      Perm.trans (perm_middle x (keep_if (λ i. not (p i)) xs) (keep_if p xs))
        (Perm.cons x (keep_if-perm p xs)))
  | inr e ↦ rw e (Perm.cons x (keep_if-perm p xs))
]

-- The configuration routes the dashboard, then the items with a path of their own, then those for
-- every path: no item of the second kind stands behind one with a shorter path. Together the two lists are the
-- items of the routes, none lost and none twice.
pub build_caddy_config-order :
    (domain target : Text) (t : Table Route)
    → ((build_caddy_config domain target t).routes
        ≡ dashboard_routes domain target
          ++ (map specific_route (specific_items t) ++ map catch_all_route (catch_all_items t)))
      × IsLongestFirst (specific_items t)
      × All (λ i. is_catch_all i ≡ false) (specific_items t)
      × All (λ i. is_catch_all i ≡ true) (catch_all_items t)
      × Perm (specific_items t ++ catch_all_items t) (items t)
unfolding build_caddy_config specific_items catch_all_items
build_caddy_config-order domain target t =
    let open_items : List Item = keep_if (λ i. not (is_catch_all i)) (items t) in
    let wide_items : List Item = keep_if is_catch_all (items t) in
    (
      refl,
      longest_first (sort more_specific open_items)
          (sort-IsSorted more_specific more_specific_order open_items),
      All-sort (λ i. is_catch_all i ≡ false) more_specific open_items (All-specific (items t)),
      All-sort (λ i. is_catch_all i ≡ true) by_host wide_items (All-keep_if is_catch_all (items t)),
      Perm.trans (Perm.append (sort-perm more_specific open_items) (sort-perm by_host wide_items))
          (keep_if-perm is_catch_all (items t)),
    )
