-- ===== src/Roots/Lists.antt =====
-- Members of lists that are filtered, and tests on some member.
use mathlib.Core.List.{Memᴰ}
use mathlib.Core.List.Memᴰ
use ayane.Base.{
  Bool, true, ◌≡◌, inl, inr, sym, ap, ◌∙◌, refl, List, [], ◌∷◌, any, retain, Bool-cases,
}

module _ {ℓ} {A : Type ℓ} (p : A → Bool) where
  pub Mem-of_retain : {x : A} (xs : List A) → Memᴰ x (retain p xs) → Memᴰ x xs × (p x ≡ true)
  Mem-of_retain [] m = absurd (Memᴰ.not-nil m)
  Mem-of_retain (y ∷ xs) m = elim (Bool-cases (p y)) [
    | inl e ↦ elim (Memᴰ.cases_cons (rw e at m)) [
      | inl same ↦ (Memᴰ.head same, ap p same ∙ e)
      | inr m' ↦ let (i, q) = Mem-of_retain xs m' in (Memᴰ.tail i, q)
    ]
    | inr e ↦ let (i, q) = Mem-of_retain xs (rw e at m) in (Memᴰ.tail i, q)
  ]

  pub Mem-retain : {x : A} (xs : List A) → Memᴰ x xs → p x ≡ true → Memᴰ x (retain p xs)
  Mem-retain [] m h = absurd (Memᴰ.not-nil m)
  Mem-retain (y ∷ xs) (Memᴰ.head same) h = rw (sym (ap p same) ∙ h) (Memᴰ.head same)
  Mem-retain (y ∷ xs) (Memᴰ.tail m) h = elim (Bool-cases (p y)) [
    | inl e ↦ rw e (Memᴰ.tail (Mem-retain xs m h))
    | inr e ↦ rw e (Mem-retain xs m h)
  ]

  pub any-Mem : (xs : List A) → any p xs ≡ true → (x : A) × Memᴰ x xs × (p x ≡ true)
  any-Mem [] h = cc
  any-Mem (y ∷ xs) h = elim (Bool-cases (p y)) [
    | inl e ↦ (y, Memᴰ.head refl, e)
    | inr e ↦ let (x, m, q) = any-Mem xs (rw e at h) in (x, Memᴰ.tail m, q)
  ]

  pub Mem-any : {x : A} (xs : List A) → Memᴰ x xs → p x ≡ true → any p xs ≡ true
  Mem-any [] m h = absurd (Memᴰ.not-nil m)
  Mem-any (y ∷ xs) (Memᴰ.head same) h = rw (sym (ap p same) ∙ h) refl
  Mem-any (y ∷ xs) (Memᴰ.tail m) h = elim (Bool-cases (p y)) [
    | inl e ↦ rw e refl
    | inr e ↦ rw e (Mem-any xs m h)
  ]
