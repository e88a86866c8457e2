-- ===== src/Common/FilePath.antt =====
-- What the program calls of Go's `path/filepath`, for paths with `/`: `Clean`, `Join`, `Rel`,
-- `IsAbs`.
pub mod Laws
use liteploy.Common.Tests.{if◌then◌else◌, ◌==◌, nat_beq}
use liteploy.Common.Lists.{is_empty, keep_if}
use liteploy.Common.Text.{Text, codes, text_eq, split, join}
use Prim.Native.Nat.{ℕ, zero, suc}
use mathlib.Core.Bool.{Bool, true, false, ◌||◌, ◌&&◌, not}
use mathlib.Core.Option.{Option, none, some}
use mathlib.Core.List.{List, [], ◌∷◌, ◌++◌, reverse, map}

unfoldable pub is_abs : Text → Bool
is_abs [] = false
is_abs (c ∷ _) = nat_beq c b'/'

abbrev pub dot : Text
dot = codes "."

abbrev pub dot_dot : Text
dot_dot = codes ".."

-- One component of `Clean`; the stack has the last component at its head. A `..` at the root of an
-- absolute path is dropped, and one that leads out of a relative path stays.
unfoldable pub push_part : Bool → List Text → Text → List Text
push_part rooted [] part =
    if is_empty part || part == dot || rooted && part == dot_dot then [] else part ∷ []
push_part rooted (top ∷ stack) part =
    if is_empty part || part == dot
    then top ∷ stack
    else if part == dot_dot && not (top == dot_dot)
    then stack
    else part ∷ top ∷ stack

unfoldable pub resolve : Bool → List Text → List Text → List Text
unfolding push_part
resolve rooted stack [] = reverse stack
resolve rooted stack (part ∷ rest) = resolve rooted (push_part rooted stack part) rest

-- The components of the cleaned path.
unfoldable pub clean_parts : Text → List Text
unfolding resolve is_abs
clean_parts t = resolve (is_abs t) [] (split b'/' t)

unfoldable pub show_parts : Bool → List Text → Text
show_parts true parts = b'/' ∷ join b'/' parts
show_parts false [] = dot
show_parts false (part ∷ rest) = join b'/' (part ∷ rest)

unfoldable pub clean : Text → Text
unfolding clean_parts show_parts
clean t = show_parts (is_abs t) (clean_parts t)

not_empty : Text → Bool
not_empty t = not (is_empty t)

clean_joined : List Text → Text
clean_joined [] = []
clean_joined (part ∷ rest) = clean (join b'/' (part ∷ rest))

-- `filepath.Join(parts...)`, which leaves out the empty parts.
unfoldable pub join_all : List Text → Text
unfolding clean clean_joined not_empty
join_all parts = clean_joined (keep_if not_empty parts)

-- `filepath.Join(a, b)`
abbrev pub join_path : Text → Text → Text
join_path a b = join_all (a ∷ b ∷ [])

-- What is left of both lists behind their common start.
strip_common : List Text → List Text → List Text × List Text
strip_common [] ys = ([], ys)
strip_common (x ∷ xs) [] = (x ∷ xs, [])
strip_common (x ∷ xs) (y ∷ ys) =
    let rest = strip_common xs ys in if x == y then rest else (x ∷ xs, y ∷ ys)

climb : List Text → List Text → List Text
climb [] target = target
climb (_ ∷ base) target = dot_dot ∷ climb base target

-- `filepath.Rel(base, target)` for two absolute paths, for which it does not fail.
unfoldable pub rel : Text → Text → Text
unfolding strip_common climb clean_parts show_parts
rel base target =
    let (up, down) = strip_common (clean_parts base) (clean_parts target) in
    show_parts false (climb up down)
