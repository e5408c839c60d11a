-- ===== src/Roots/Twins.antt =====
-- The search's loop over the twins of a certificate.
use mathlib.Core.List.{Memᴰ}
use mathlib.Core.List.Memᴰ
use ayane.Base.{
  ℕ, Bool, true, false, ◌≡◌, ◌⊎◌, inl, inr, refl, sym, ap, ◌∙◌, List, [], ◌∷◌, any, Bool-cases,
}
use ayane.Roots.{
  Der, Node, Visited, Search, edge_of, same_edge, temporally_valid, pop, issuers_of, is_anchored,
  climb, try_twins,
}
use ayane.Roots.Lists.{any-Mem}
use ayane.Roots.Path.{Issuer, Pinned}
use ayane.Roots.Loops.{same_edge→eq}
use ayane.Roots.Search.{issuers_of_iff, is_anchored_iff, or_else-cases, climb_sound, climb-Restores}

-- A search that fails leaves visited what it found.
abbrev pub Restores : (Node → Search) → Type 0
Restores go = (n : Node) (v : Visited) → (go n v).0 ≡ false → (go n v).1 ≡ v

module _ (D : Der) (bag anchors : List Node) (now : ℕ) where
  abbrev pub inner : (Node → Search) → Node → Visited → Bool × Visited
  inner go t v = climb D bag anchors now go (issuers_of D bag anchors now t) (edge_of t ∷ v)

  -- One turn of the loop over the twins.
  data Turn (go : Node → Search) (t : Node) (ts : List Node) (v : Visited) : Type 0 where
    skipped :
        (temporally_valid now t ≡ false) ⊎ (any (same_edge (edge_of t)) v ≡ true)
        → try_twins D bag anchors now go (t ∷ ts) v ≡ try_twins D bag anchors now go ts v
        → Turn go t ts v
    anchored :
        temporally_valid now t ≡ true
        → is_anchored D bag anchors now t ≡ true
        → try_twins D bag anchors now go (t ∷ ts) v ≡ (true, v)
        → Turn go t ts v
    climbed :
        temporally_valid now t ≡ true
        → (inner go t v).0 ≡ true
        → try_twins D bag anchors now go (t ∷ ts) v ≡ inner go t v
        → Turn go t ts v
    missed :
        is_anchored D bag anchors now t ≡ false
        → (inner go t v).0 ≡ false
        → try_twins D bag anchors now go (t ∷ ts) v
          ≡ try_twins D bag anchors now go ts (pop (inner go t v).1)
        → Turn go t ts v

  Turn-of : (go : Node → Search) (t : Node) (ts : List Node) (v : Visited) → Turn go t ts v
  unfolding try_twins
  Turn-of go t ts v = elim (Bool-cases (temporally_valid now t)) [
    | inr e ↦ skipped (inl e) (rw (try_twins, e) refl)
    | inl e ↦ elim (Bool-cases (any (same_edge (edge_of t)) v)) [
      | inl f ↦ skipped (inr f) (rw (try_twins, e, f) refl)
      | inr f ↦ elim (Bool-cases (is_anchored D bag anchors now t)) [
        | inl g ↦ anchored e g (rw (try_twins, e, f, g) refl)
        | inr g ↦
            elim (or_else-cases D bag anchors now (inner go t v)
              (λ w. try_twins D bag anchors now go ts (pop w))) [
                | inl (found, q) ↦ climbed e found (rw (try_twins, e, f, g) q)
                | inr (lost, q) ↦ missed g lost (rw (try_twins, e, f, g) q)
              ]
      ]
    ]
  ]

  pub twins_sound :
      (go : Node → Search) (ts : List Node) (v : Visited)
      → (try_twins D bag anchors now go ts v).0 ≡ true
      → (t : Node) × Memᴰ t ts
        × (temporally_valid now t ≡ true)
        × (Pinned D bag anchors now t
            ⊎ ((i : Node) × Issuer D bag anchors now t i × ((w : Visited) × ((go i w).0 ≡ true))))
  unfolding try_twins
  twins_sound go [] v h = cc
  twins_sound go (t ∷ ts) v h = elim (Turn-of go t ts v) [
    | skipped why e ↦
        let (u, m, valid, how) = twins_sound go ts v (sym (ap (λ o. o.0) e) ∙ h) in
        (u, Memᴰ.tail m, valid, how)
    | anchored valid g e ↦
        (t, Memᴰ.head refl, valid, inl ((is_anchored_iff D bag anchors now t).0 g))
    | climbed valid found e ↦
        let (i, m, w) = climb_sound D bag anchors now go (issuers_of D bag anchors now t) _ found in
        (t, Memᴰ.head refl, valid, inr (i, (issuers_of_iff D bag anchors now t i).0 m, w))
    | missed g lost e ↦
        let (u, m, valid, how) = twins_sound go ts _ (sym (ap (λ o. o.0) e) ∙ h) in
        (u, Memᴰ.tail m, valid, how)
  ]

  popped :
      (go : Node → Search) (t : Node) (v : Visited)
      → Restores go
      → (inner go t v).0 ≡ false
      → pop (inner go t v).1 ≡ v
  unfolding pop
  popped go t v restores lost = ap pop (
      climb-Restores D bag anchors now go (issuers_of D bag anchors now t) (edge_of t ∷ v) restores
        lost)

  pub twins-Restores :
      (go : Node → Search) (ts : List Node) (v : Visited)
      → Restores go
      → (try_twins D bag anchors now go ts v).0 ≡ false
      → (try_twins D bag anchors now go ts v).1 ≡ v
  unfolding try_twins
  twins-Restores go [] v restores h = refl
  twins-Restores go (t ∷ ts) v restores h = elim (Turn-of go t ts v) [
    | skipped why e ↦ ap (λ o. o.1) e ∙ twins-Restores go ts v restores (sym (ap (λ o. o.0) e) ∙ h)
    | anchored valid g e ↦ absurd (cc (ap (λ o. o.0) e, h))
    | climbed valid found e ↦ absurd (cc (ap (λ o. o.0) e, found, h))
    | missed g lost e ↦
        ap (λ o. o.1) e
        ∙ twins-Restores go ts _ restores (sym (ap (λ o. o.0) e) ∙ h)
        ∙ popped go t v restores lost
  ]

  pub twins_finds :
      (go : Node → Search) (ts : List Node) (v : Visited) {t : Node}
      → Restores go
      → Memᴰ t ts
      → temporally_valid now t ≡ true
      → ¬ Memᴰ (edge_of t) v
      → (is_anchored D bag anchors now t ≡ true) ⊎ ((inner go t v).0 ≡ true)
      → (try_twins D bag anchors now go ts v).0 ≡ true
  unfolding try_twins
  twins_finds go [] v restores m valid new how = absurd (Memᴰ.not-nil m)
  twins_finds go (u ∷ ts) v {t = t} restores m valid new how = elim (Turn-of go u ts v) [
    | skipped why e ↦ ap (λ o. o.0) e ∙ elim (Memᴰ.cases_cons m) [
      | inr m' ↦ twins_finds go ts v restores m' valid new how
      | inl same ↦ elim why [
        | inl invalid ↦ absurd (cc (same, valid, invalid))
        | inr seen ↦
            let (d, i, q) = any-Mem (same_edge (edge_of u)) v seen in
            absurd (new (Memᴰ.cast (ap edge_of same ∙ same_edge→eq (edge_of u) d q) i))
      ]
    ]
    | anchored valid' g e ↦ ap (λ o. o.0) e
    | climbed valid' found e ↦ ap (λ o. o.0) e ∙ found
    | missed g lost e ↦ elim (Memᴰ.cases_cons m) [
      | inr m' ↦
          ap (λ o. o.0) e
          ∙ ap (λ w. (try_twins D bag anchors now go ts w).0) (popped go u v restores lost)
          ∙ twins_finds go ts v restores m' valid new how
      | inl same ↦ elim how [
        | inl yes' ↦ absurd (cc (same, yes', g))
        | inr found ↦ absurd (cc (same, found, lost))
      ]
    ]
  ]
