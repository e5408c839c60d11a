-- ===== src/Storage/Dynamo/Table.antt =====
-- ayane/src/storage/dynamodb.rs: what a conditional put leaves in the table.
use ayane.Base.{
  ◌≡◌, inl, inr, refl, sym, ap, ◌∙◌, subst, Bool, true, false, not, Option, some, List, [], ◌∷◌,
  ◌++◌, arith, retain, find, Bool-cases, Option-cases,
}
use ayane.Storage.Dynamo.{Item, has_key, put_item, not_exists}
use ayane.Storage.Dynamo.Keys.{Key, same_key, same_key_self, same_key→eq}

pub find-append-other :
    {A : Type 0} (p : A → Bool) (x : A) (xs : List A)
    → p x ≡ false
    → find p (xs ++ x ∷ []) ≡ find p xs
find-append-other p x [] h = rw h refl
find-append-other p x (y ∷ xs) h = ground (arith, find-append-other p x xs h)

find-append-retain :
    {A : Type 0} (p : A → Bool) (x : A) (xs : List A)
    → p x ≡ true
    → find p (retain (λ y. not (p y)) xs ++ x ∷ []) ≡ some x
find-append-retain p x [] h = rw h refl
find-append-retain p x (y ∷ xs) h = elim (Bool-cases (p y)) [
  | inl e ↦ rw e (find-append-retain p x xs h)
  | inr e ↦ rw (e, e) (find-append-retain p x xs h)
]

find-retain-other :
    {A : Type 0} (p q : A → Bool) (xs : List A)
    → ((y : A) → p y ≡ true → q y ≡ true)
    → find p (retain q xs) ≡ find p xs
find-retain-other p q [] h = refl
find-retain-other p q (y ∷ xs) h = elim (Bool-cases (p y)) [
  | inl e ↦ rw (h y e, e) refl
  | inr e ↦ elim (Bool-cases (q y)) [
    | inl k ↦ rw (k, e) (find-retain-other p q xs h)
    | inr k ↦ rw (k, e) (find-retain-other p q xs h)
  ]
]

-- The table has an item with the key, and the item has the property.
pub record Has (key : Key) (P : Item → Type 0) (table : List Item) : Type 0 where
  pub item : Item
  pub found : find (has_key key) table ≡ some item
  pub holds : P item

-- Items of other keys are as they were.
pub find-put_other :
    (key : Key) (condition : Option Item → Bool) (x : Item) (table : List Item)
    → same_key key x.key ≡ false
    → find (has_key key) (put_item condition x table).1 ≡ find (has_key key) table
unfolding put_item
find-put_other key condition x table h =
    elim (Bool-cases (condition (find (has_key x.key) table))) [
      | inr e ↦ rw e refl
      | inl e ↦ rw e (
          find-append-other (has_key key) x _ h
          ∙ find-retain-other (has_key key) _ table λ y e'. apart y e')
    ]
  where
    apart : (y : Item) → has_key key y ≡ true → not (has_key x.key y) ≡ true
    apart y e = elim (Bool-cases (has_key x.key y)) [
      | inr n ↦ rw n refl
      | inl m ↦ absurd (bad (same_key→eq key y.key e ∙ sym (same_key→eq x.key y.key m)))
    ]
      where
        bad : key ≡ x.key → ⊥
        bad q = let t : same_key key x.key ≡ true = rw q (same_key_self x.key) in ground (arith)

-- A put keeps an item that its condition would not replace.
pub put-Has :
    (key : Key) (P : Item → Type 0) (condition : Option Item → Bool) (x : Item) (table : List Item)
    → (key ≡ x.key → (y : Item) → P y → condition (some y) ≡ false)
    → Has key P table
    → Has key P (put_item condition x table).1
unfolding put_item
put-Has key P condition x table safe h = elim (Bool-cases (same_key key x.key)) [
  | inr e ↦ record {
    item = h.item;
    found = find-put_other key condition x table e ∙ h.found;
    holds = h.holds;
  }
  | inl e ↦
      let q = same_key→eq key x.key e in
      let r =
        ap condition (subst (λ k. find (has_key k) table ≡ some h.item) q h.found)
        ∙ safe q h.item h.holds in
      rw r h
]

-- A put that is made leaves its item.
pub put-Has_new :
    (P : Item → Type 0) (condition : Option Item → Bool) (x : Item) (table : List Item)
    → (put_item condition x table).0 ≡ true
    → P x
    → Has x.key P (put_item condition x table).1
unfolding put_item
put-Has_new P condition x table h p = elim (Bool-cases (condition (find (has_key x.key) table))) [
  | inr e ↦ absurd (ground arith)
  | inl e ↦ rw e (record {
    item = x;
    found = find-append-retain (has_key x.key) x table (same_key_self x.key);
    holds = p;
  })
]

-- Made or not, a put of a new item leaves an item of its key.
pub put-Has_some :
    (x : Item) (table : List Item) → Has x.key (λ _. Unit) (put_item not_exists x table).1
unfolding put_item
put-Has_some x table = elim (Option-cases (find (has_key x.key) table)) [
  | inl e ↦ rw e (record {
    item = x;
    found = find-append-retain (has_key x.key) x table (same_key_self x.key);
    holds = tt;
  })
  | inr (y, e) ↦ rw (put_item, e) (record { item = y; found = e; holds = tt })
]
