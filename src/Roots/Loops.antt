-- ===== src/Roots/Loops.antt =====
-- Every path has one without loops.
use mathlib.Core.List.{Memᴰ}
use mathlib.Core.List.Memᴰ
use ayane.Base.{ℕ, suc, true, ◌≡◌, ◌⊎◌, inl, inr, List, [], ◌∷◌, ap, ◌∙◌, arith, subst, Bool-cases}
use ayane.San.{same_bytes→eq, same_bytes_self}
use ayane.Roots.{Der, Node, Edge, edge_of, same_edge}
use ayane.Roots.Path.{Twin, PathToAnchor, Avoids, Onward, turn, Onward-suc, Onward-weaken}

pub same_edge→eq : (a b : Edge) → same_edge a b ≡ true → a ≡ b
same_edge→eq a b h = ground (
  arith,
  same_bytes→eq a.subject b.subject,
  same_bytes→eq a.spki b.spki,
  same_bytes→eq a.issuer b.issuer,
)

pub same_edge_self : (a : Edge) → same_edge a a ≡ true
same_edge_self a =
    ground (arith, same_bytes_self a.subject, same_bytes_self a.spki, same_bytes_self a.issuer)

pub Mem-edge : (e : Edge) (v : List Edge) → Memᴰ e v ⊎ ¬ Memᴰ e v
Mem-edge e [] = inr Memᴰ.not-nil
Mem-edge e (d ∷ v) = elim (Bool-cases (same_edge e d)) [
  | inl q ↦ inl (Memᴰ.head (same_edge→eq e d q))
  | inr q ↦ elim (Mem-edge e v) [
    | inl m ↦ inl (Memᴰ.tail m)
    | inr k ↦ inr λ m. elim (Memᴰ.cases_cons m) [
      | inl same ↦ absurd (cc (q, subst (λ x. same_edge e x ≡ true) same (same_edge_self e)))
      | inr m' ↦ k m'
    ]
  ]
]

module _ (D : Der) (bag anchors : List Node) (now : ℕ) where
  -- The last certificate of a path with an edge of the list, from which the path avoids the list.
  record Last (n : ℕ) (visited : List Edge) : Type 0 where
    node : Node
    present : Memᴰ node bag
    seen : Memᴰ (edge_of node) visited
    onward : Onward D bag anchors now n visited node

  Last-or_avoids :
      {n : ℕ} {cert : Node} (visited : List Edge)
      → PathToAnchor D bag anchors now n cert
      → Avoids D bag anchors now n visited cert ⊎ Last n visited
  Last-or_avoids visited (PathToAnchor.pinned {t = t} twin valid p) =
      elim (Mem-edge (edge_of t) visited) [
        | inl m ↦ inr (record {
          node = t;
          present = twin.present;
          seen = m;
          onward = record { valid = valid; next = inl p };
        })
        | inr new ↦ inl (Avoids.pinned twin new valid p)
      ]
  Last-or_avoids visited (PathToAnchor.issued {t = t} {i = i} twin valid issuer rest) =
      elim (Last-or_avoids (edge_of t ∷ visited) rest) [
        | inl a ↦ elim (Mem-edge (edge_of t) visited) [
          | inl m ↦ inr (record {
            node = t;
            present = twin.present;
            seen = m;
            onward =
                Onward-suc D bag anchors now (record { valid = valid; next = inr (i, issuer, a) });
          })
          | inr new ↦ inl (Avoids.issued twin new valid issuer a)
        ]
        | inr l ↦ shortcut twin l
      ]
    where
      shortcut :
          {n : ℕ} {cert : Node}
          → Twin D bag anchors now cert t
          → Last n (edge_of t ∷ visited)
          → Avoids D bag anchors now (suc n) visited cert ⊎ Last (suc n) visited
      shortcut twin l =
          let onward = Onward-weaken D bag anchors now (λ x. Memᴰ.tail) l.onward in
          elim (Mem-edge (edge_of l.node) visited) [
            | inl m ↦ inr (record {
              node = l.node;
              present = l.present;
              seen = m;
              onward = Onward-suc D bag anchors now onward;
            })
            | inr new ↦ elim (Memᴰ.cases_cons l.seen) [
              | inr m ↦ absurd (new m)
              | inl same ↦ inl (
                  turn D bag anchors now
                    (record {
                      present = l.present;
                      subject = ap (λ e. e.subject) same ∙ twin.subject;
                      spki = ap (λ e. e.spki) same ∙ twin.spki;
                    })
                    new onward)
            ]
          ]

  -- Whatever path there is, one of at most as many certificates takes no edge twice.
  pub PathToAnchor-Avoids :
      {n : ℕ} {cert : Node}
      → PathToAnchor D bag anchors now n cert
      → Avoids D bag anchors now n [] cert
  PathToAnchor-Avoids path = elim (Last-or_avoids [] path) [
    | inl a ↦ a
    | inr l ↦ absurd (Memᴰ.not-nil l.seen)
  ]
