-- ===== src/Roots/Path.antt =====
-- What the search of a path looks for: certificates of the bag, each under the next one's key, up to
-- a pinned one. The paths that avoid the edges that are visited come between it and the search.
use mathlib.Core.List.{Memᴰ}
use ayane.Base.{ℕ, suc, true, ◌≡◌, ◌⊎◌, inl, inr, List, ◌∷◌}
use ayane.Roots.{Der, Node, Edge, edge_of, temporally_valid}

module _ (D : Der) (bag anchors : List Node) (now : ℕ) where
  -- another certificate of the bag for the same subject and key, or the same one
  pub record Twin (cert t : Node) : Type 0 where
    pub present : Memᴰ t bag
    pub subject : t.subject ≡ cert.subject
    pub spki : t.spki ≡ cert.spki

  pub record Issued (t n : Node) : Type 0 where
    pub named : n.subject ≡ t.issuer
    pub signed : D.verify_x509_signature t.cert n.spki ≡ true

  pub record Issuer (t n : Node) : Type 0 where
    pub present : Memᴰ n bag
    pub ca : n.is_ca ≡ true
    pub issued : Issued t n

  -- pinned, or under a pinned key
  pub record Pinned (t : Node) : Type 0 where
    pub anchor : Node
    pub present : Memᴰ anchor anchors
    pub how : (anchor.der ≡ t.der) ⊎ Issued t anchor

  -- A path of at most that many certificates, by twins, from one to a pinned certificate.
  pub data PathToAnchor : ℕ → Node → Type 0 where
    pinned :
        {n : ℕ} {cert t : Node}
        → Twin cert t
        → temporally_valid now t ≡ true
        → Pinned t
        → PathToAnchor (suc n) cert
    issued :
        {n : ℕ} {cert t i : Node}
        → Twin cert t
        → temporally_valid now t ≡ true
        → Issuer t i
        → PathToAnchor n i
        → PathToAnchor (suc n) cert

  -- The same, no certificate of which has an edge of the list, nor two of them the same edge.
  pub data Avoids : ℕ → List Edge → Node → Type 0 where
    pinned :
        {n : ℕ} {visited : List Edge} {cert t : Node}
        → Twin cert t
        → ¬ Memᴰ (edge_of t) visited
        → temporally_valid now t ≡ true
        → Pinned t
        → Avoids (suc n) visited cert
    issued :
        {n : ℕ} {visited : List Edge} {cert t i : Node}
        → Twin cert t
        → ¬ Memᴰ (edge_of t) visited
        → temporally_valid now t ≡ true
        → Issuer t i
        → Avoids n (edge_of t ∷ visited) i
        → Avoids (suc n) visited cert

  -- how such a path goes on from a certificate
  pub record Onward (n : ℕ) (visited : List Edge) (t : Node) : Type 0 where
    pub valid : temporally_valid now t ≡ true
    pub next : Pinned t ⊎ ((i : Node) × Issuer t i × Avoids n (edge_of t ∷ visited) i)

  pub turn :
      {n : ℕ} {visited : List Edge} {cert t : Node}
      → Twin cert t
      → ¬ Memᴰ (edge_of t) visited
      → Onward n visited t
      → Avoids (suc n) visited cert
  turn twin new o = elim o.next [
    | inl p ↦ Avoids.pinned twin new o.valid p
    | inr (i, issuer, rest) ↦ Avoids.issued twin new o.valid issuer rest
  ]

  Mem-cons :
      {e d : Edge} {v w : List Edge}
      → ((x : Edge) → Memᴰ x v → Memᴰ x w)
      → Memᴰ e (d ∷ v)
      → Memᴰ e (d ∷ w)
  Mem-cons sub (Memᴰ.head q) = Memᴰ.head q
  Mem-cons sub (Memᴰ.tail m) = Memᴰ.tail (sub _ m)

  -- A path may be longer, and avoid less.
  pub Avoids-weaken :
      {n : ℕ} {v w : List Edge} {cert : Node}
      → ((x : Edge) → Memᴰ x w → Memᴰ x v)
      → Avoids n v cert
      → Avoids n w cert
  Avoids-weaken sub (Avoids.pinned twin new valid p) =
      Avoids.pinned twin (λ m. new (sub _ m)) valid p
  Avoids-weaken sub (Avoids.issued twin new valid issuer rest) =
      Avoids.issued twin (λ m. new (sub _ m)) valid issuer (Avoids-weaken (λ x. Mem-cons sub) rest)

  pub Avoids-suc : {n : ℕ} {v : List Edge} {cert : Node} → Avoids n v cert → Avoids (suc n) v cert
  Avoids-suc (Avoids.pinned twin new valid p) = Avoids.pinned twin new valid p
  Avoids-suc (Avoids.issued twin new valid issuer rest) =
      Avoids.issued twin new valid issuer (Avoids-suc rest)

  pub Onward-suc : {n : ℕ} {v : List Edge} {t : Node} → Onward n v t → Onward (suc n) v t
  Onward-suc o = record {
    valid = o.valid;
    next = elim o.next [ inl p ↦ inl p | inr (i, issuer, rest) ↦ inr (i, issuer, Avoids-suc rest) ];
  }

  pub Onward-weaken :
      {n : ℕ} {v w : List Edge} {t : Node}
      → ((x : Edge) → Memᴰ x w → Memᴰ x v)
      → Onward n v t
      → Onward n w t
  Onward-weaken sub o = record {
    valid = o.valid;
    next = elim o.next [
      | inl p ↦ inl p
      | inr (i, issuer, rest) ↦ inr (i, issuer, Avoids-weaken (λ x. Mem-cons sub) rest)
    ];
  }
