-- ===== src/Storage/Paths.antt =====
-- No path that the store uses leaves the root.
use mathlib.Core.List.{append-nil}
use liteploy.Common.{◌≡◌, sym, ap, ◌∙◌, true, false, [], ◌∷◌, ◌++◌, arith, keep_if, ok}
use liteploy.Common.Text.{Text, codes, includes, split, join}
use liteploy.Common.FilePath.{is_abs, clean, clean_parts, show_parts, join_path, join_all}
use liteploy.Common.FilePath.Laws.{is_name, split-append, resolve-split_no_dots}
use liteploy.Storage.{safe_path}

no_dots_of_safe_path :
    (root t p : Text)
    → safe_path root t ≡ ok p
    → (includes t (codes "..") ≡ false) × (p ≡ join_path root t)
unfolding safe_path
no_dots_of_safe_path root t p h = ground arith

is_abs-append : (a b : Text) → is_abs a ≡ true → is_abs (a ++ b) ≡ true
unfolding is_abs
is_abs-append [] b h = cc
is_abs-append (c ∷ a) b h = h

clean-append :
    (root t : Text)
    → is_abs root ≡ true
    → includes t (codes "..") ≡ false
    → clean (root ++ b'/' ∷ t)
      ≡ show_parts true (clean_parts root ++ keep_if is_name (split b'/' t))
unfolding clean clean_parts
clean-append root t a h =
    rw (is_abs-append root (b'/' ∷ t) a, a, split-append b'/' root t)
      (ap (show_parts true) (resolve-split_no_dots true (split b'/' root) t h))

nil_not_abs : ¬ (is_abs [] ≡ true)
unfolding is_abs
nil_not_abs h = cc

clean_of_abs : (root : Text) → is_abs root ≡ true → clean root ≡ show_parts true (clean_parts root)
unfolding clean
clean_of_abs root a = rw a

join_path_below :
    (root t : Text)
    → is_abs root ≡ true
    → includes t (codes "..") ≡ false
    → join_path root t ≡ show_parts true (clean_parts root ++ keep_if is_name (split b'/' t))
unfolding join_all split join
join_path_below [] t a h = absurd (nil_not_abs a)
join_path_below (c ∷ root) [] a h =
    clean_of_abs (c ∷ root) a ∙ ap (show_parts true) (sym (append-nil (clean_parts (c ∷ root))))
join_path_below (c ∷ root) (d ∷ t) a h = clean-append (c ∷ root) (d ∷ t) a h

-- A path that `safePath` accepts is the root's components with the names of the relative path
-- behind them, none of which is "", "." or "..": it lies in the root's tree.
pub safe_path_below :
    (root t p : Text)
    → is_abs root ≡ true
    → safe_path root t ≡ ok p
    → p ≡ show_parts true (clean_parts root ++ keep_if is_name (split b'/' t))
safe_path_below root t p a h =
    let (free, joined) = no_dots_of_safe_path root t p h in joined ∙ join_path_below root t a free
