-- ===== src/Storage/Dynamo/Listing.antt =====
-- ayane/src/storage/dynamodb.rs: the loop of `list_revocations` ends, and misses nothing.
use ayane.Base.{
  ℕ, zero, suc, ◌+◌, ◌<◌, ◌≤◌, ◌≡◌, ◌≢◌, inl, inr, refl, sym, ap, ◌∙◌, true, false, Option, none,
  some, List, [], ◌∷◌, ◌++◌, arith, length, retain, take, drop, drop-drop, append-take-drop,
  length-drop, is_empty, Option-cases, Bool-cases, All,
}
use mathlib.Core.List.{append-nil, append_assoc}
use ayane.Error.{Error, Result, ok, err, Result-cases, ok-injective}
use ayane.Action.{pure, lift, lift-eq-ok, >>=-eq-ok, >>=-ok, >>=-err}
use ayane.Storage.{RevocationRecord}
use ayane.Storage.Dynamo.{DynamoDbStorage, Item, Serde, Outcome, next_outcome, read}
use ayane.Storage.Dynamo.Paging.{
  is_revocation, query_page, from_items, pages, page_bound, list_revocations,
}

abbrev revocations : List Item → List Item
revocations table = retain is_revocation table

-- Both views of the table have fewer revocations than the bound.
abbrev Within : ℕ → DynamoDbStorage → Type 0
Within bound s = (length (revocations s.table) < bound) × (length (revocations s.replica) < bound)

read-Within :
    {A : Type 0} (bound : ℕ) (query : ℕ → List Item → Result A) (s : DynamoDbStorage)
    → Within bound s
    → Within bound (read query s).1
unfolding read
read-Within bound query s (h, k) = elim (Option-cases (next_outcome s.outcomes).0.failure) [
  | inl e ↦ elim (Bool-cases (next_outcome s.outcomes).0.synced) [
    | inl b ↦ rw (read, e, b) (h, h)
    | inr b ↦ rw (read, e, b) (h, k)
  ]
  | inr (m, e) ↦ elim (Bool-cases (next_outcome s.outcomes).0.synced) [
    | inl b ↦ rw (read, e, b) (h, h)
    | inr b ↦ rw (read, e, b) (h, k)
  ]
]

nonempty-length : {A : Type 0} (xs : List A) → is_empty xs ≡ false → 0 < length xs
nonempty-length [] h = cc
nonempty-length (x ∷ xs) h = omega arith

is_empty→nil : {A : Type 0} (xs : List A) → is_empty xs ≡ true → xs ≡ []
is_empty→nil [] h = refl
is_empty→nil (x ∷ xs) h = cc

-- A page that is not the last one starts before the end, and the next one starts later.
next-lt :
    (start page bound : ℕ) (seen : List Item) (key : ℕ)
    → length (revocations seen) < bound
    → (query_page start page seen).1 ≡ some key
    → (start < key) × (key < bound)
unfolding query_page
next-lt start page bound seen key h e =
    elim (Bool-cases (is_empty (drop (suc page) (drop start (revocations seen))))) [
      | inl q ↦ let e' = rw (query_page, q) at e in cc
      | inr q ↦
          let e' = rw (query_page, q) at e in
          let k : start + suc page ≡ key = cc in
          let l = nonempty-length (drop (suc page) (drop start (revocations seen))) q in
          let a = length-drop (suc page) (drop start (revocations seen)) in
          let b = length-drop start (revocations seen) in (omega arith, omega arith)
    ]

-- What a read that answers has seen.
read-seen :
    {A : Type 0} (bound : ℕ) (query : ℕ → List Item → A) (s : DynamoDbStorage) (a : A)
    → Within bound s
    → (read (λ page seen. ok (query page seen)) s).0 ≡ ok a
    → (page : ℕ) × (seen : List Item) × (length (revocations seen) < bound) × (a ≡ query page seen)
unfolding read
read-seen bound query s a (h, k) q = elim (Option-cases (next_outcome s.outcomes).0.failure) [
  | inr (m, e) ↦ absurd (ground arith)
  | inl e ↦ elim (Bool-cases (next_outcome s.outcomes).0.synced) [
    | inl b ↦
        let q' = rw (read, e, b) at q in
        ((next_outcome s.outcomes).0.page, s.table, h, sym (ok-injective q'))
    | inr b ↦
        let q' = rw (read, e, b) at q in
        ((next_outcome s.outcomes).0.page, s.replica, k, sym (ok-injective q'))
  ]
]

module _ (J : Serde) where
  pages_end :
      (bound fuel start : ℕ) (out : List RevocationRecord) (s : DynamoDbStorage)
      → Within bound s
      → start < bound
      → bound ≤ start + fuel
      → (pages J fuel start out s).0 ≢ ok none
  unfolding pages pure
  pages_end bound zero start out s w lt le q = absurd (omega arith)
  pages_end bound (suc fuel) start out s w lt le q =
      let (response, hr, e) = >>=-eq-ok (read λ page seen. ok (query_page start page seen)) _ s q in
      let (found, hf, e') =
        lift-eq-ok (from_items J response.0) _
          (read (λ page seen. ok (query_page start page seen)) s).1 (sym (ap (λ o. o.0) e) ∙ q) in
      let (page, seen, short, r) = read-seen bound (query_page start) s response w hr in
      let last = sym (ap (λ o. o.0) (e ∙ e')) ∙ q in
      elim (Option-cases response.1) [
        | inl n ↦ let last' = rw (n, pure) at last in cc
        | inr (key, n) ↦
            let (up, down) = next-lt start page bound seen key short (sym (ap (λ x. x.1) r) ∙ n) in
            pages_end bound fuel key (out ++ found) _ (read-Within bound _ s w) down (omega arith)
              (rw n at last)
      ]

  -- The loop of a listing ends before its bound on the rounds, whatever the service answers.
  pub listing_ends : (s : DynamoDbStorage) → (pages J (page_bound J s) 0 [] s).0 ≢ ok none
  listing_ends s =
      pages_end (page_bound J s) (page_bound J s) 0 [] s (omega arith, omega arith) (omega arith)
        (omega arith)

-- The service answers every request, and the replica has caught up.
pub record IsHealthy (s : DynamoDbStorage) : Type 0 where
  pub answers : All (λ (o : Outcome). o.failure ≡ none) s.outcomes
  pub caught_up : s.replica ≡ s.table

next-failure :
    (outcomes : List Outcome)
    → All (λ (o : Outcome). o.failure ≡ none) outcomes
    → ((next_outcome outcomes).0.failure ≡ none)
      × All (λ (o : Outcome). o.failure ≡ none) (next_outcome outcomes).1
unfolding next_outcome
next-failure [] h = (refl, tt)
next-failure (o ∷ outcomes) (h, k) = (h, k)

read-IsHealthy :
    {A : Type 0} (query : ℕ → List Item → A) (s : DynamoDbStorage)
    → IsHealthy s
    → (page : ℕ) × ((read (λ page seen. ok (query page seen)) s).0 ≡ ok (query page s.table))
      × IsHealthy (read (λ page seen. ok (query page seen)) s).1
      × ((read (λ page seen. ok (query page seen)) s).1.table ≡ s.table)
unfolding read
read-IsHealthy query s h =
    let (e, left) = next-failure s.outcomes h.answers in
    elim (Bool-cases (next_outcome s.outcomes).0.synced) [
      | inl b ↦ (
        (next_outcome s.outcomes).0.page,
        rw (read, e, b) refl,
        rw (read, e, b) (record { answers = left; caught_up = refl }),
        rw (read, e) refl,
      )
      | inr b ↦ (
        (next_outcome s.outcomes).0.page,
        rw (read, e, b, h.caught_up) refl,
        rw (read, e, b) (record { answers = left; caught_up = h.caught_up }),
        rw (read, e) refl,
      )
    ]

-- what a listing gives where `out` is read and `rest` is to come
abbrev finish :
    List RevocationRecord → Result (List RevocationRecord) → Result (Option (List RevocationRecord))
finish out (ok rs) = ok (some (out ++ rs))
finish out (err e) = err e

-- more records after `rs`
abbrev after :
    List RevocationRecord → Result (List RevocationRecord) → Result (List RevocationRecord)
after rs (ok more) = ok (rs ++ more)
after rs (err e) = err e

finish-after :
    (out rs : List RevocationRecord) (r : Result (List RevocationRecord))
    → finish out (after rs r) ≡ finish (out ++ rs) r
finish-after out rs (ok more) = rw (append_assoc out rs more) refl
finish-after out rs (err e) = refl

module _ (J : Serde) where
  from_items-append :
      (xs ys : List Item) (rs : List RevocationRecord)
      → from_items J xs ≡ ok rs
      → from_items J (xs ++ ys) ≡ after rs (from_items J ys)
  unfolding from_items
  from_items-append [] ys rs h = elim (Result-cases (from_items J ys)) [
    | inl (more, e) ↦ rw (e, sym (ok-injective h)) refl
    | inr (x, e) ↦ rw e refl
  ]
  from_items-append (x ∷ xs) ys rs h = elim (Result-cases (J.revocation_from_item x.attributes)) [
    | inr (e, q) ↦ let h' = rw (from_items, q) at h in cc
    | inl (r, q) ↦ elim (Result-cases (from_items J xs)) [
      | inr (e, q') ↦ let h' = rw (from_items, q, q') at h in cc
      | inl (more, q') ↦
          let h' = rw (from_items, q, q') at h in
          rw (q, from_items-append xs ys more q')
            (elim (Result-cases (from_items J ys)) [
              | inl (zs, z) ↦ rw (z, sym (ok-injective h')) refl
              | inr (e, z) ↦ rw z refl
            ])
    ]
  ]

  from_items-append_err :
      (xs ys : List Item) (e : Error) → from_items J xs ≡ err e → from_items J (xs ++ ys) ≡ err e
  unfolding from_items
  from_items-append_err [] ys e h = cc
  from_items-append_err (x ∷ xs) ys e h =
      elim (Result-cases (J.revocation_from_item x.attributes)) [
        | inr (e', q) ↦ rw q (rw (from_items, q) at h)
        | inl (r, q) ↦ elim (Result-cases (from_items J xs)) [
          | inr (e', q') ↦
              let h' = rw (from_items, q, q') at h in rw (q, from_items-append_err xs ys e' q') h'
          | inl (more, q') ↦ let h' = rw (from_items, q, q') at h in cc
        ]
      ]

  pages-eq :
      (fuel start : ℕ) (out : List RevocationRecord) (s : DynamoDbStorage)
      → IsHealthy s
      → start ≤ length (revocations s.table)
      → length (revocations s.table) < start + fuel
      → (pages J fuel start out s).0 ≡ finish out (from_items J (drop start (revocations s.table)))
  unfolding pages pure lift query_page from_items
  pages-eq zero start out s h le lt = absurd (omega arith)
  pages-eq (suc fuel) start out s h le lt =
      let (page, answer, left, same) = read-IsHealthy (query_page start) s h in
      let items = drop start (revocations s.table) in
      let split = append-take-drop (suc page) items in
      let rest = drop (suc page) items in
      let m = read λ page seen. ok (query_page start page seen) in
      let first = ap (λ o. o.0) (>>=-ok m _ s answer) in
      let whole = ap (λ xs. finish out (from_items J xs)) split in
      elim (Result-cases (from_items J (take (suc page) items))) [
        | inr (e, q) ↦
            first
            ∙ >>=-err (lift (from_items J (take (suc page) items))) _ (m s).1 q
            ∙ sym (ap (finish out) (from_items-append_err (take (suc page) items) rest e q))
            ∙ whole
        | inl (found, q) ↦
            let second =
              ap (λ o. o.0) (>>=-ok (lift (from_items J (take (suc page) items))) _ (m s).1 q) in
            let target =
              sym (finish-after out found (from_items J rest))
              ∙ ap (finish out) (sym (from_items-append (take (suc page) items) rest found q))
              ∙ whole in
            first ∙ second ∙ elim (Bool-cases (is_empty rest)) [
              | inl last ↦
                  rw (query_page, last) (rw (is_empty→nil rest last, append-nil) refl) ∙ target
              | inr more ↦
                  rw (query_page, more)
                    (let (_, down) =
                        next-lt start page (suc (length (revocations s.table))) s.table
                          (start + suc page) (omega arith) (rw (query_page, more) refl) in
                      let e = ap (λ t. length (revocations t)) same in
                      pages-eq fuel (start + suc page) (out ++ found) (m s).1 left (omega arith)
                        (omega arith)
                      ∙ ap
                          (λ t.
                            finish (out ++ found)
                              (from_items J (drop (start + suc page) (revocations t))))
                          same
                      ∙ ap (λ xs. finish (out ++ found) (from_items J xs))
                          (sym (drop-drop start (suc page) (revocations s.table))))
                  ∙ target
            ]
      ]

  -- Where the service answers every request and the replica has caught up, a listing gives every
  -- revocation of the table, whatever the sizes of its pages are.
  pub listing_complete :
      (s : DynamoDbStorage)
      → IsHealthy s
      → (list_revocations J s).0 ≡ from_items J (revocations s.table)
  unfolding list_revocations pure
  listing_complete s h =
      let q = pages-eq (page_bound J s) 0 [] s h (omega arith) (omega arith) in
      elim (Result-cases (from_items J (revocations s.table))) [
        | inl (rs, e) ↦
            ap (λ o. o.0) (>>=-ok (pages J (page_bound J s) 0 []) _ s (q ∙ ap (finish []) e))
            ∙ sym e
        | inr (x, e) ↦ >>=-err (pages J (page_bound J s) 0 []) _ s (q ∙ ap (finish []) e) ∙ sym e
      ]
