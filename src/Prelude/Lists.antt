-- ===== src/Prelude/Lists.antt =====
-- Tables are lists of rows: row-wise predicates, queries, and updates of the selected rows.
use Prim.Native.Nat.{ℕ, suc}
use mathlib.Core.Path.{◌≡◌, refl, sym, ap, subst, ◌∙◌}
use mathlib.Core.Logic.{◌⊎◌, inl, inr}
use mathlib.Core.List.{List, [], ◌∷◌, ◌++◌, map}
use mathlib.Core.Bool.{Bool, true, false, ◌&&◌, ◌||◌}
use mathlib.Core.Option.{Option, none, some}
use vpn_management_panel.Prelude.Tests.{if◌then◌else◌, Bool-cases}

module _ {ℓ} {A : Type ℓ} where
  abbrev pub length : List A → ℕ
  length [] = 0
  length (x ∷ xs) = suc (length xs)

  -- The rows that pass the test.
  abbrev pub select : (A → Bool) → List A → List A
  select p [] = []
  select p (x ∷ xs) = let rest = select p xs in if p x then x ∷ rest else rest

  abbrev pub count_if : (A → Bool) → List A → ℕ
  count_if p [] = 0
  count_if p (x ∷ xs) = let rest = count_if p xs in if p x then suc rest else rest

  abbrev pub any : (A → Bool) → List A → Bool
  any p [] = false
  any p (x ∷ xs) = p x || any p xs

  abbrev pub all : (A → Bool) → List A → Bool
  all p [] = true
  all p (x ∷ xs) = p x && all p xs

  -- The first row that passes the test.
  abbrev pub find : (A → Bool) → List A → Option A
  find p [] = none
  find p (x ∷ xs) = let rest = find p xs in if p x then some x else rest

  -- A write to the rows that pass the test.
  abbrev pub update_if : (A → Bool) → (A → A) → A → A
  update_if p f x = if p x then f x else x

-- A row is in a table.
abbrev pub In : {A : Type 0} → A → List A → Type 0
In a [] = ⊥
In a (x ∷ xs) = (a ≡ x) ⊎ In a xs

module _ {ℓ κ} {A : Type ℓ} where
  -- Every row has the property.
  abbrev pub All : (A → Type κ) → List A → Type κ
  All P [] = Unit
  All P (x ∷ xs) = P x × All P xs

module _ {ℓ κ} {A : Type ℓ} (P Q : A → Type κ) where
  pub All-imp : (xs : List A) → ((x : A) → P x → Q x) → All P xs → All Q xs
  All-imp [] h p = tt
  All-imp (x ∷ xs) h (p, ps) = (h x p, All-imp xs h ps)

  pub All-map : (f : A → A) (xs : List A) → ((x : A) → P x → Q (f x)) → All P xs → All Q (map f xs)
  All-map f [] h p = tt
  All-map f (x ∷ xs) h (p, ps) = (h x p, All-map f xs h ps)

module _ {ℓ κ} {A : Type ℓ} (P : A → Type κ) where
  pub All-append : (xs ys : List A) → All P xs → All P ys → All P (xs ++ ys)
  All-append [] ys hx hy = hy
  All-append (x ∷ xs) ys hx hy = (hx.0, All-append xs ys hx.1 hy)

module _ {A : Type 0} (P : A → Type 0) where
  pub All-at : (xs : List A) (a : A) → All P xs → In a xs → P a
  All-at [] a ps m = absurd m
  All-at (x ∷ xs) a (p, ps) (inl e) = subst P (sym e) p
  All-at (x ∷ xs) a (p, ps) (inr m) = All-at xs a ps m

  pub All-of_In : (xs : List A) → ((a : A) → In a xs → P a) → All P xs
  All-of_In [] h = tt
  All-of_In (x ∷ xs) h = (h x (inl refl), All-of_In xs (λ a m. h a (inr m)))

-- A loop over the selected rows of a table that may write each row, and that notes a key of the
-- rows for which the step says so.
module _ {ℓ} {A : Type ℓ} (chosen : A → Bool) (step : A → A × Bool) where
  abbrev pub step_row : A → A
  step_row x = if chosen x then (step x).0 else x

  abbrev pub row_hit : A → Bool
  row_hit x = chosen x && (step x).1

  -- The table after the loop.
  abbrev pub rows_after : List A → List A
  rows_after xs = map step_row xs

module _ {ℓ κ} {A : Type ℓ} (P Q R : A → Type κ) where
  pub All-map₂ :
      (f : A → A) (xs : List A)
      → ((x : A) → P x → Q x → R (f x))
      → All P xs
      → All Q xs
      → All R (map f xs)
  All-map₂ f [] h p q = tt
  All-map₂ f (x ∷ xs) h (p, ps) (q, qs) = (h x p q, All-map₂ f xs h ps qs)

module _ {ℓ} {A : Type ℓ} (P : A → Type 0) (t : A → Bool) where
  pub All-select : (xs : List A) → All P xs → All P (select t xs)
  All-select [] p = tt
  All-select (x ∷ xs) (p, ps) =
      elim (t x) as (λ b. All P (if b then x ∷ select t xs else select t xs)) [
        | true ↦ (p, All-select xs ps)
        | false ↦ All-select xs ps
      ]

module _ {A : Type 0} where
  pub In-select : (t : A → Bool) (xs : List A) (a : A) → In a xs → t a ≡ true → In a (select t xs)
  In-select t [] a m e = absurd m
  In-select t (x ∷ xs) a (inl same) e =
      let hit : t x ≡ true = ap t (sym same) ∙ e in rw hit (inl same)
  In-select t (x ∷ xs) a (inr m) e =
      let rest = In-select t xs a m e in
      elim (Bool-cases (t x)) [ inl hit ↦ rw hit (inr rest) | inr miss ↦ rw miss rest ]

-- A selected element's image is among the images.
pub In-mapped :
    {A B : Type 0} (f : A → B) (t : A → Bool) (xs : List A) (x : A)
    → In x xs
    → t x ≡ true
    → In (f x) (map f (select t xs))
In-mapped f t [] x m e = absurd m
In-mapped f t (y ∷ xs) x (inl is) e =
    let hit : t y ≡ true = ap t (sym is) ∙ e in rw hit (inl (ap f is))
In-mapped f t (y ∷ xs) x (inr m) e =
    let rest = In-mapped f t xs x m e in
    elim (Bool-cases (t y)) [ inl hit ↦ rw hit (inr rest) | inr miss ↦ rw miss rest ]
