-- ===== src/Base/Lists.antt =====
-- Lists over the native numbers, and predicates on their members.
use Prim.Native.Nat.{ℕ, zero, suc, ◌+◌, ◌-◌}
use native.Mathlib.Nat.{zero-add}
use mathlib.Core.Path.{◌≡◌, refl, ap}
use mathlib.Core.Logic.{◌⊎◌, inl, inr}
use mathlib.Core.Bool.{Bool, true, false}
use mathlib.Core.Option.{Option, none, some}
use mathlib.Core.List.{List, [], ◌∷◌, ◌++◌}
use native.Mathlib.Omega.{arith}
use ayane.Base.Tests.{if◌then◌else◌, Bool-cases}

module _ {ℓ} {A : Type ℓ} where
  abbrev pub length : List A → ℕ
  length [] = 0
  length (x ∷ xs) = suc (length xs)

  -- `xs.is_empty()`
  abbrev pub is_empty : List A → Bool
  is_empty [] = true
  is_empty (x ∷ xs) = false

  -- `xs.iter().any(p)`
  abbrev pub any : (A → Bool) → List A → Bool
  any p [] = false
  any p (x ∷ xs) = if p x then true else any p xs

  -- `xs.iter().find(p)`
  abbrev pub find : (A → Bool) → List A → Option A
  find p [] = none
  find p (x ∷ xs) = if p x then some x else find p xs

  -- `xs.retain(p)`
  abbrev pub retain : (A → Bool) → List A → List A
  retain p [] = []
  retain p (x ∷ xs) = let rest = retain p xs in if p x then x ∷ rest else rest

  abbrev pub take : ℕ → List A → List A
  take zero xs = []
  take (suc n) [] = []
  take (suc n) (x ∷ xs) = x ∷ take n xs

  abbrev pub drop : ℕ → List A → List A
  drop zero xs = xs
  drop (suc n) [] = []
  drop (suc n) (x ∷ xs) = drop n xs

  pub append-take-drop : (n : ℕ) (xs : List A) → take n xs ++ drop n xs ≡ xs
  append-take-drop zero xs = refl
  append-take-drop (suc n) [] = refl
  append-take-drop (suc n) (x ∷ xs) = ap (λ ys. x ∷ ys) (append-take-drop n xs)

  pub drop_nil : (n : ℕ) → drop n [] ≡ []
  drop_nil zero = refl
  drop_nil (suc n) = refl

  pub drop-drop : (m n : ℕ) (xs : List A) → drop n (drop m xs) ≡ drop (m + n) xs
  drop-drop zero n xs = rw zero-add refl
  drop-drop (suc m) n [] = rw (drop_nil (suc m + n), drop_nil n) refl
  drop-drop (suc m) n (x ∷ xs) =
      let e : suc m + n ≡ suc (m + n) = omega arith in rw e (drop-drop m n xs)

  pub length-drop : (n : ℕ) (xs : List A) → length (drop n xs) ≡ length xs - n
  length-drop zero xs = omega arith
  length-drop (suc n) [] = omega arith
  length-drop (suc n) (x ∷ xs) = omega (arith, length-drop n xs)

module _ {ℓ κ} {A : Type ℓ} (P : A → Type κ) where
  abbrev pub All : List A → Type κ
  All [] = Unit
  All (x ∷ xs) = P x × All xs

  pub All-of : ((x : A) → P x) → (xs : List A) → All xs
  All-of k [] = tt
  All-of k (x ∷ xs) = (k x, All-of k xs)

  pub All-append : (xs ys : List A) → All xs → All ys → All (xs ++ ys)
  All-append [] ys h k = k
  All-append (x ∷ xs) ys (p, h) k = (p, All-append xs ys h k)

  pub All-retain : (p : A → Bool) (xs : List A) → All xs → All (retain p xs)
  All-retain p [] h = tt
  All-retain p (x ∷ xs) (q, h) = ground (arith, All-retain p xs h)

  -- What passes the test, where passing gives `P`.
  pub All-of_retain :
      (p : A → Bool) (xs : List A) → ((x : A) → p x ≡ true → P x) → All (retain p xs)
  All-of_retain p [] k = tt
  All-of_retain p (x ∷ xs) k = elim (Bool-cases (p x)) [
    | inl yes' ↦ ground (arith, k x yes', All-of_retain p xs k)
    | inr no' ↦ ground (arith, All-of_retain p xs k)
  ]

-- Some member has the property; the member's place is kept.
module _ {ℓ} {A : Type ℓ} (P : A → Type 0) where
  abbrev pub Any : List A → Type 0
  Any [] = ⊥
  Any (x ∷ xs) = P x ⊎ Any xs

  pub Any-append : (xs ys : List A) → Any xs → Any (xs ++ ys)
  Any-append [] ys h = absurd h
  Any-append (x ∷ xs) ys (inl p) = inl p
  Any-append (x ∷ xs) ys (inr h) = inr (Any-append xs ys h)

  pub Any-last : (xs : List A) (x : A) → P x → Any (xs ++ x ∷ [])
  Any-last [] x p = inl p
  Any-last (y ∷ xs) x p = inr (Any-last xs x p)

  pub any_of_Any :
      (p : A → Bool) (xs : List A) → ((x : A) → P x → p x ≡ true) → Any xs → any p xs ≡ true
  any_of_Any p [] k h = absurd h
  any_of_Any p (x ∷ xs) k (inl h) = ground (arith, k x h)
  any_of_Any p (x ∷ xs) k (inr h) = ground (arith, any_of_Any p xs k h)

  -- A member that passes the test is retained.
  pub Any-retain :
      (p : A → Bool) (xs : List A) → ((x : A) → P x → p x ≡ true) → Any xs → Any (retain p xs)
  Any-retain p [] k h = absurd h
  Any-retain p (x ∷ xs) k (inl h) = ground (arith, k x h)
  Any-retain p (x ∷ xs) k (inr h) = elim (Bool-cases (p x)) [
    | inl yes' ↦ rw yes' (inr (Any-retain p xs k h))
    | inr no' ↦ rw no' (Any-retain p xs k h)
  ]

  pub Any-of_retain : (p : A → Bool) (xs : List A) → Any (retain p xs) → Any xs
  Any-of_retain p [] h = absurd h
  Any-of_retain p (x ∷ xs) h = elim (Bool-cases (p x)) [
    | inl yes' ↦ elim (rw yes' at h) [ inl q ↦ inl q | inr q ↦ inr (Any-of_retain p xs q) ]
    | inr no' ↦ inr (Any-of_retain p xs (rw no' at h))
  ]
