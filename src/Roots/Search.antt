-- ===== src/Roots/Search.antt =====
-- The lists that the search goes through, and its inner loop.
use mathlib.Core.List.{Memᴰ}
use mathlib.Core.List.Memᴰ
use ayane.Base.{
  ℕ, Bool, true, false, ◌&&◌, ◌≡◌, ◌↔◌, ◌⊎◌, inl, inr, refl, sym, ap, ◌∙◌, subst, List, [], ◌∷◌,
  any, nat_eq, Bool-cases, arith,
}
use ayane.San.{Bytes, same_bytes, same_bytes→eq, same_bytes_self}
use ayane.Roots.{
  Der, Node, Visited, Search, or_else, issued_by, is_twin, twins_of, issuers_of, is_anchored, climb,
}
use ayane.Roots.Lists.{Mem-of_retain, Mem-retain, any-Mem, Mem-any}
use ayane.Roots.Path.{Twin, Issued, Issuer, Pinned}

-- no two nodes of the bag have one place
abbrev pub Placed : List Node → Type 0
Placed bag = (a b : Node) → Memᴰ a bag → Memᴰ b bag → nat_eq a.place b.place ≡ true → a ≡ b

and_iff : (a b : Bool) → ((a && b) ≡ true) ↔ ((a ≡ true) × (b ≡ true))
and_iff true b = (λ h. (refl, h), λ h. h.1)
and_iff false b = (λ h. absurd (cc h), λ h. h.0)

same_bytes_iff : (a b : Bytes) → (same_bytes a b ≡ true) ↔ (a ≡ b)
same_bytes_iff a b =
    (same_bytes→eq a b, λ e. subst (λ c. same_bytes a c ≡ true) e (same_bytes_self a))

module _ (D : Der) (bag anchors : List Node) (now : ℕ) where
  issued_by_iff : (t n : Node) → (issued_by D t n ≡ true) ↔ Issued D bag anchors now t n
  issued_by_iff t n =
      let both = and_iff (same_bytes n.subject t.issuer) (D.verify_x509_signature t.cert n.spki) in
      let named = same_bytes_iff n.subject t.issuer in
      (
        λ h. record { named = named.0 (both.0 h).0; signed = (both.0 h).1 },
        λ i. both.1 (named.1 i.named, i.signed),
      )

  is_twin_iff :
      (cert t : Node)
      → (is_twin D bag anchors now cert t ≡ true)
        ↔ ((nat_eq t.place cert.place ≡ false) × (t.subject ≡ cert.subject) × (t.spki ≡ cert.spki))
  unfolding is_twin
  is_twin_iff cert t =
      let subject = same_bytes_iff t.subject cert.subject in
      let spki = same_bytes_iff t.spki cert.spki in
      (
        λ h. (ground arith, subject.0 (ground arith), spki.0 (ground arith)),
        λ h. let (a, b, c) = h in let b' = subject.1 b in let c' = spki.1 c in ground arith,
      )

  pub Mem-twins_of :
      {cert t : Node}
      → Memᴰ cert bag
      → Memᴰ t (twins_of D bag anchors now cert)
      → Twin D bag anchors now cert t
  unfolding twins_of is_twin
  Mem-twins_of {cert} {t} present m = elim (Memᴰ.cases_cons m) [
    | inl same ↦ record {
      present = Memᴰ.cast same present;
      subject = ap (λ n. n.subject) same;
      spki = ap (λ n. n.spki) same;
    }
    | inr m' ↦
        let (i, q) = Mem-of_retain _ bag m' in
        let (_, subject, spki) = (is_twin_iff cert t).0 q in
        record { present = i; subject = subject; spki = spki }
  ]

  pub Twin-Mem :
      Placed bag
      → {cert t : Node} → Memᴰ cert bag
      → Twin D bag anchors now cert t
      → Memᴰ t (twins_of D bag anchors now cert)
  unfolding twins_of is_twin
  Twin-Mem placed {cert} {t} present twin = elim (Bool-cases (nat_eq t.place cert.place)) [
    | inl e ↦ Memᴰ.head (placed t cert twin.present present e)
    | inr e ↦
        Memᴰ.tail
          (Mem-retain _ bag twin.present ((is_twin_iff cert t).1 (e, twin.subject, twin.spki)))
  ]

  pub issuers_of_iff :
      (t n : Node) → Memᴰ n (issuers_of D bag anchors now t) ↔ Issuer D bag anchors now t n
  unfolding issuers_of
  issuers_of_iff t n = (
    λ m.
        let (i, q) = Mem-of_retain _ bag m in
        let (ca, by) = (and_iff n.is_ca (issued_by D t n)).0 q in
        record { present = i; ca = ca; issued = (issued_by_iff t n).0 by },
    λ h.
        Mem-retain _ bag h.present
          ((and_iff n.is_ca (issued_by D t n)).1 (h.ca, (issued_by_iff t n).1 h.issued)),
  )

  pub is_anchored_iff :
      (t : Node) → (is_anchored D bag anchors now t ≡ true) ↔ Pinned D bag anchors now t
  unfolding is_anchored
  is_anchored_iff t = (
    λ h. elim (Bool-cases (any (λ a. same_bytes a.der t.der) anchors)) [
      | inl e ↦
          let (a, m, q) = any-Mem _ anchors e in
          record { anchor = a; present = m; how = inl ((same_bytes_iff a.der t.der).0 q) }
      | inr e ↦
          let (a, m, q) = any-Mem _ anchors (rw e at h) in
          record { anchor = a; present = m; how = inr ((issued_by_iff t a).0 q) }
    ],
    λ p. elim p.how [
      | inl same ↦
          let e =
            Mem-any (λ a. same_bytes a.der t.der) anchors p.present
              ((same_bytes_iff p.anchor.der t.der).1 same) in
          rw e refl
      | inr by ↦
          let e = Mem-any (issued_by D t) anchors p.present ((issued_by_iff t p.anchor).1 by) in
          elim (Bool-cases (any (λ a. same_bytes a.der t.der) anchors)) [
            | inl f ↦ rw f refl
            | inr f ↦ rw f e
          ]
    ],
  )

  pub or_else-cases :
      (o : Bool × Visited) (next : Search)
      → ((o.0 ≡ true) × (or_else o next ≡ o)) ⊎ ((o.0 ≡ false) × (or_else o next ≡ next o.1))
  unfolding or_else
  or_else-cases (true, v) next = inl (refl, refl)
  or_else-cases (false, v) next = inr (refl, refl)

  pub climb_sound :
      (go : Node → Search) (ns : List Node) (v : Visited)
      → (climb D bag anchors now go ns v).0 ≡ true
      → (n : Node) × Memᴰ n ns × ((w : Visited) × ((go n w).0 ≡ true))
  unfolding climb
  climb_sound go [] v h = cc
  climb_sound go (n ∷ ns) v h = elim (or_else-cases (go n v) (climb D bag anchors now go ns)) [
    | inl (found, e) ↦ (n, Memᴰ.head refl, (v, found))
    | inr (missed, e) ↦
        let (m, i, (w, q)) = climb_sound go ns (go n v).1 (sym (ap (λ o. o.0) e) ∙ h) in
        (m, Memᴰ.tail i, (w, q))
  ]

  pub climb-Restores :
      (go : Node → Search) (ns : List Node) (v : Visited)
      → ((n : Node) (w : Visited) → (go n w).0 ≡ false → (go n w).1 ≡ w)
      → (climb D bag anchors now go ns v).0 ≡ false
      → (climb D bag anchors now go ns v).1 ≡ v
  unfolding climb
  climb-Restores go [] v restores h = refl
  climb-Restores go (n ∷ ns) v restores h =
      elim (or_else-cases (go n v) (climb D bag anchors now go ns)) [
        | inl (found, e) ↦ absurd (cc (found, e, h))
        | inr (missed, e) ↦
            ap (λ o. o.1) e
            ∙ climb-Restores go ns (go n v).1 restores (sym (ap (λ o. o.0) e) ∙ h)
            ∙ restores n v missed
      ]

  pub climb_finds :
      (go : Node → Search) (ns : List Node) (v : Visited) {n : Node}
      → ((n : Node) (w : Visited) → (go n w).0 ≡ false → (go n w).1 ≡ w)
      → Memᴰ n ns
      → (go n v).0 ≡ true
      → (climb D bag anchors now go ns v).0 ≡ true
  unfolding climb
  climb_finds go [] v restores m h = absurd (Memᴰ.not-nil m)
  climb_finds go (k ∷ ns) v {n = n} restores m h =
      elim (or_else-cases (go k v) (climb D bag anchors now go ns)) [
        | inl (found, e) ↦ ap (λ o. o.0) e ∙ found
        | inr (missed, e) ↦ elim (Memᴰ.cases_cons m) [
          | inl same ↦ absurd (cc (same, missed, h))
          | inr m' ↦
              ap (λ o. o.0) e
              ∙ ap (λ w. (climb D bag anchors now go ns w).0) (restores k v missed)
              ∙ climb_finds go ns v restores m' h
        ]
      ]
