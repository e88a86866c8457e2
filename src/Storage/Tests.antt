-- ===== src/Storage/Tests.antt =====
-- Tests and witnesses for the store.
use liteploy.Common.{
  ℕ, ◌≡◌, refl, ◌≢◌, true, false, Option, none, some, [], ◌∷◌, ◌++◌, All, keep_if, ok, err,
}
use liteploy.Common.Text.{codes, text_eq, text_beq, split, includes, has_prefix, strip_prefix, join}
use liteploy.Common.Table.{Table, get}
use liteploy.Common.FilePath.{
  is_abs, clean, clean_parts, resolve, push_part, show_parts, join_all, rel,
}
use liteploy.Common.FilePath.Laws.{is_name}
use liteploy.Storage.{at_rename, Disk, Store, safe_path, write_states, write_json, disallowed_dots}
use liteploy.Storage.Writes.{IsWhole, write_states-IsWhole}
use liteploy.Storage.Paths.{safe_path_below}

abbrev working : Disk
working = record { mkdir_fails = λ _. false; fault = λ _. none; temp_name = λ p. p ++ codes ".tmp" }

abbrev files : Table (Option ℕ)
files = (codes "/d/a", some 1) ∷ (codes "/d/b", some 2) ∷ []

abbrev small_store : Store ℕ
small_store = record { root = codes "/d"; files = files }

a_is_not_tmp : codes "/d/a" ≢ codes "/d/tmp"
a_is_not_tmp e = cc

dots_are_refused : safe_path (codes "/d") (codes "../x") ≡ err disallowed_dots
unfolding safe_path includes has_prefix strip_prefix
dots_are_refused = refl

write_states-IsWhole_example :
    All
      (IsWhole (codes "/d/tmp") (codes "/d/a") 7 files)
      (write_states (codes "/d/tmp") (codes "/d/a") 7 (some at_rename) files)
write_states-IsWhole_example =
    write_states-IsWhole (codes "/d/tmp") (codes "/d/a") 7 (some at_rename) files

no_tmp : get files (codes "/d/tmp") ≡ none
unfolding get text_beq
no_tmp = refl

written_without_error : (write_json working small_store (codes "a") 7).1 ≡ none
unfolding write_json safe_path includes has_prefix strip_prefix text_beq rel join_all clean
    clean_parts resolve push_part is_abs show_parts split join
written_without_error = refl

root_is_abs : is_abs (codes "/d") ≡ true
unfolding is_abs
root_is_abs = refl

path_is_accepted : safe_path (codes "/d") (codes "x//y") ≡ ok (codes "/d/x/y")
unfolding safe_path includes has_prefix strip_prefix text_beq rel join_all clean clean_parts resolve
    push_part is_abs show_parts split join
path_is_accepted = refl

safe_path_below_example :
    codes "/d/x/y"
    ≡ show_parts true (clean_parts (codes "/d") ++ keep_if is_name (split b'/' (codes "x//y")))
safe_path_below_example =
    safe_path_below (codes "/d") (codes "x//y") (codes "/d/x/y") root_is_abs path_is_accepted
