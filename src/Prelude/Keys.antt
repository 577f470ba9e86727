-- ===== src/Prelude/Keys.antt =====
-- Lists of pairs of a key and a value in which no key stands twice.
use Prim.Native.Nat.{ℕ, zero, suc}
use mathlib.Core.Path.{◌≡◌}
use mathlib.Core.Logic.{◌≢◌}
use mathlib.Core.Bool.{Bool, true, ◌&&◌, not}
use mathlib.Core.Option.{some}
use mathlib.Core.List.{List, [], ◌∷◌}
use native.Mathlib.Omega.{arith}
use alcatraz.Prelude.Tests.{◌==◌}
use alcatraz.Prelude.Lists.{get_elem?}

abbrev pub absent : ℕ → List (ℕ × ℕ) → Bool
absent f [] = true
absent f (x ∷ xs) = not (x.0 == f) && absent f xs

abbrev pub are_distinct : List (ℕ × ℕ) → Bool
are_distinct [] = true
are_distinct (x ∷ xs) = absent x.0 xs && are_distinct xs

pub absent-get :
    (f : ℕ) (xs : List (ℕ × ℕ)) (i : ℕ) (x : ℕ × ℕ)
    → absent f xs ≡ true
    → get_elem? xs i ≡ some x
    → x.0 ≢ f
absent-get f [] i x h e = cc
absent-get f (y ∷ ys) zero x h e = ground arith
absent-get f (y ∷ ys) (suc i) x h e = absent-get f ys i x (ground arith) e
