-- ===== src/Roots/Exact.antt =====
-- The search is exact: it succeeds where there is a path, and only there.
use mathlib.Core.List.{Memᴰ}
use ayane.Base.{ℕ, zero, suc, true, ◌≡◌, ◌↔◌, inl, inr, refl, List, [], ◌∷◌}
use ayane.Roots.{Der, Node, Visited, edge_of, issuers_of, reaches_anchor}
use ayane.Roots.Path.{PathToAnchor, Avoids}
use ayane.Roots.Loops.{PathToAnchor-Avoids}
use ayane.Roots.Search.{
  Placed, Mem-twins_of, Twin-Mem, issuers_of_iff, is_anchored_iff, climb_finds,
}
use ayane.Roots.Twins.{Restores, twins_sound, twins-Restores, twins_finds}

module _ (D : Der) (bag anchors : List Node) (now : ℕ) where
  reaches-Restores : (n : ℕ) → Restores (reaches_anchor D bag anchors now n)
  unfolding reaches_anchor
  reaches-Restores zero cert v h = refl
  reaches-Restores (suc n) cert v h =
      twins-Restores D bag anchors now (reaches_anchor D bag anchors now n) _ v (reaches-Restores n)
        h

  reaches_sound :
      (n : ℕ) (cert : Node) (v : Visited)
      → Memᴰ cert bag
      → (reaches_anchor D bag anchors now n cert v).0 ≡ true
      → PathToAnchor D bag anchors now n cert
  unfolding reaches_anchor
  reaches_sound zero cert v present h = cc
  reaches_sound (suc n) cert v present h =
      let (t, m, valid, how) =
        twins_sound D bag anchors now (reaches_anchor D bag anchors now n) _ v h in
      let twin = Mem-twins_of D bag anchors now present m in
      elim how [
        | inl p ↦ PathToAnchor.pinned twin valid p
        | inr (i, issuer, (w, found)) ↦
            PathToAnchor.issued twin valid issuer (reaches_sound n i w issuer.present found)
      ]

  reaches_finds :
      {n : ℕ} {cert : Node} {v : Visited}
      → Placed bag
      → Memᴰ cert bag
      → Avoids D bag anchors now n v cert
      → (reaches_anchor D bag anchors now n cert v).0 ≡ true
  unfolding reaches_anchor
  reaches_finds {v = v} placed present (Avoids.pinned {n = n} {t = t} twin new valid p) =
      twins_finds D bag anchors now (reaches_anchor D bag anchors now n) _ v (reaches-Restores n)
        (Twin-Mem D bag anchors now placed present twin) valid new
        (inl ((is_anchored_iff D bag anchors now t).1 p))
  reaches_finds {v = v} placed present
        (Avoids.issued {n = n} {t = t} {i = i} twin new valid issuer rest) =
      twins_finds D bag anchors now (reaches_anchor D bag anchors now n) _ v (reaches-Restores n)
        (Twin-Mem D bag anchors now placed present twin) valid new
        (inr (
          climb_finds D bag anchors now (reaches_anchor D bag anchors now n)
            (issuers_of D bag anchors now t) (edge_of t ∷ v) (reaches-Restores n)
            ((issuers_of_iff D bag anchors now t i).1 issuer)
            (reaches_finds placed issuer.present rest)))

-- In a bag whose nodes have places of their own, the search from one of its nodes succeeds exactly
-- where there is a path to a pinned certificate of at most as many certificates as depths are left.
-- The path may go through the twins of a certificate, and take an edge twice.
pub reaches_anchor_iff :
    (D : Der) (bag anchors : List Node) (now n : ℕ) (cert : Node)
    → Placed bag
    → Memᴰ cert bag
    → ((reaches_anchor D bag anchors now n cert []).0 ≡ true)
      ↔ PathToAnchor D bag anchors now n cert
reaches_anchor_iff D bag anchors now n cert placed present = (
  reaches_sound D bag anchors now n cert [] present,
  λ path.
      reaches_finds D bag anchors now placed present (PathToAnchor-Avoids D bag anchors now path),
)
