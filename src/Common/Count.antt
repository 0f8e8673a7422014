-- ===== src/Common/Count.antt =====
-- How often a number stands in a list: the multiset that reference counts and pools go by.
use Prim.Native.Nat.{ℕ, suc, ◌+◌, ◌-◌, ◌<◌, ◌≤◌}
use mathlib.Core.Path.{◌≡◌}
use mathlib.Core.List.{List, [], ◌∷◌, ◌++◌}
use native.Mathlib.Omega.{arith}
use ruseon_core.Common.Tests.{◌==◌, if◌then◌else◌}
use ruseon_core.Common.Lists.{length}

unfoldable pub count : ℕ → List ℕ → ℕ
count a [] = 0
count a (x ∷ xs) = (if x == a then 1 else 0) + count a xs

-- The list without the first occurrence.
unfoldable pub remove : ℕ → List ℕ → List ℕ
remove a [] = []
remove a (x ∷ xs) = if x == a then xs else x ∷ remove a xs

pub count-append : (a : ℕ) (xs ys : List ℕ) → count a (xs ++ ys) ≡ count a xs + count a ys
unfolding count
count-append a [] ys = omega arith
count-append a (x ∷ xs) ys = ground (arith, count-append a xs ys)

pub count-remove :
    (a b : ℕ) (xs : List ℕ) → count a (remove b xs) ≡ count a xs - (if b == a then 1 else 0)
unfolding count remove
count-remove a b [] = ground arith
count-remove a b (x ∷ xs) = ground (arith, count-remove a b xs)

pub count-le-length : (a : ℕ) (xs : List ℕ) → count a xs ≤ length xs
unfolding count
count-le-length a [] = omega arith
count-le-length a (x ∷ xs) = ground (arith, count-le-length a xs)

pub length-remove-le : (a : ℕ) (xs : List ℕ) → length (remove a xs) ≤ length xs
unfolding remove
length-remove-le a [] = omega arith
length-remove-le a (x ∷ xs) = ground (arith, length-remove-le a xs)

pub length-remove : (a : ℕ) (xs : List ℕ) → 0 < count a xs → suc (length (remove a xs)) ≡ length xs
unfolding remove count
length-remove a [] h = absurd (omega arith)
length-remove a (x ∷ xs) h = ground (arith, length-remove a xs)
