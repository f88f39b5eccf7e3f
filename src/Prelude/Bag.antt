-- ===== src/Prelude/Bag.antt =====
-- Lists of ids up to order: what a set of jobs is split into, whatever the order of the parts.
use mathlib.Core.Quot
use mathlib.Core.Quot.{Quot}
use Prim.Native.Nat.{ℕ, ◌+◌}
use mathlib.Core.Path.{◌≡◌}
use mathlib.Core.List.{List, [], ◌∷◌, ◌++◌}
use native.Mathlib.Omega.{arith}
use black_soil_loop_server.Prelude.Tests.{if◌then◌else◌, ◌==◌, ltb}
use black_soil_loop_server.Prelude.Lists.{any}

-- How often an id occurs.
abbrev pub count : ℕ → List ℕ → ℕ
count a [] = 0
count a (x ∷ xs) = let rest = count a xs in if x == a then 1 + rest else rest

pub count-append : (a : ℕ) (xs ys : List ℕ) → count a (xs ++ ys) ≡ count a xs + count a ys
count-append a [] ys = omega arith
count-append a (x ∷ xs) ys = ground (arith, count-append a xs ys)

pub any-count : (a : ℕ) (xs : List ℕ) → any (λ x. x == a) xs ≡ ltb 0 (count a xs)
any-count a [] = ground arith
any-count a (x ∷ xs) = ground (arith, any-count a xs)

abbrev pub SameIds : List ℕ → List ℕ → Type 0
SameIds xs ys = (a : ℕ) → count a xs ≡ count a ys

abbrev pub Bag : Type 0
Bag = Quot SameIds

abbrev pub bag : List ℕ → Bag
bag = Quot.mk

pub same_bag : (xs ys : List ℕ) → SameIds xs ys → bag xs ≡ bag ys
same_bag xs ys h = Quot.sound h
