-- ===== src/Prelude/Sets.antt =====
-- Python sets of row ids as lists without repetition, read by membership.
use Prim.Native.Nat.{ℕ}
use Prim.Native.String.{String}
use mathlib.Core.Path.{◌≡◌}
use mathlib.Core.List.{List, [], ◌∷◌}
use mathlib.Core.Bool.{Bool, true, false, ◌||◌}
use native.Mathlib.Omega.{arith}
use vpn_management_panel.Prelude.Tests.{◌==◌, if◌then◌else◌, str_eq, str_eq_iff}

unfoldable pub mem : ℕ → List ℕ → Bool
mem a [] = false
mem a (x ∷ xs) = a == x || mem a xs

-- s.add(a)
unfoldable pub add : ℕ → List ℕ → List ℕ
unfolding mem
add a s = if mem a s then s else a ∷ s

-- s |= t
unfoldable pub union : List ℕ → List ℕ → List ℕ
unfolding add
union s [] = s
union s (a ∷ t) = union (add a s) t

pub mem-add : (a b : ℕ) (s : List ℕ) → mem b (add a s) ≡ (b == a || mem b s)
unfolding add
mem-add a b s = ground arith

pub mem-union : (b : ℕ) (s t : List ℕ) → mem b (union s t) ≡ (mem b s || mem b t)
unfolding union mem
mem-union b s [] = ground arith
mem-union b s (a ∷ t) = ground (arith, mem-union b (add a s) t, mem-add a b s)

unfoldable pub mem_text : String → List String → Bool
unfolding str_eq
mem_text a [] = false
mem_text a (x ∷ xs) = str_eq a x || mem_text a xs

pub mem_text-cons_self : (a : String) (s : List String) → mem_text a (a ∷ s) ≡ true
unfolding mem_text
mem_text-cons_self a s = ground (arith, (str_eq_iff a a).1)
