-- ===== src/Roots/Anchored.antt =====
-- A signer is anchored exactly where a path leads from it to the pinned bundle.
use mathlib.Core.List.{Memᴰ}
use mathlib.Core.List.Memᴰ
use ayane.Base.{
  ℕ, suc, true, ◌≡◌, ◌↔◌, ◌≤◌, ◌∙◌, inl, inr, refl, ap, sym, List, [], ◌∷◌, arith, Bool-cases,
}
use ayane.Error.{ok, Ensures, Ensures-bind, Ensures-ok, >>=-ok}
use ayane.X509.{Certificate}
use ayane.Roots.{
  Der, Node, reaches_anchor, max_path_depth, new_node, new_nodes, anchor_from, anchor_signer,
}
use ayane.Roots.Path.{PathToAnchor}
use ayane.Roots.Search.{Placed}
use ayane.Roots.Exact.{reaches_anchor_iff}

module _ (D : Der) where
  new_node-place : (k : ℕ) (cert : Certificate) → Ensures (λ n. n.place ≡ k) (new_node D k cert)
  unfolding new_node
  new_node-place k cert = Ensures-bind _ _ λ _ _.
      Ensures-bind _ _ λ _ _. Ensures-bind _ _ λ _ _. Ensures-bind _ _ λ _ _. Ensures-ok _ refl

  -- Places grow along a bag.
  pub new_nodes-Placed :
      (k : ℕ) (certs : List Certificate)
      → Ensures
          (λ nodes. Placed nodes × ((n : Node) → Memᴰ n nodes → k ≤ n.place))
          (new_nodes D k certs)
  unfolding new_nodes
  new_nodes-Placed k [] =
      Ensures-ok _ (λ a b m. absurd (Memᴰ.not-nil m), λ n m. absurd (Memᴰ.not-nil m))
  new_nodes-Placed k (cert ∷ certs) = Ensures-bind _ _ λ node h. Ensures-bind _ _ λ nodes hs.
      let place = (new_node-place k cert).at node h in
      let (placed, later) = (new_nodes-Placed (suc k) certs).at nodes hs in
      Ensures-ok _ (
        λ a b ma mb same. elim (Memᴰ.cases_cons ma) [
          | inl ea ↦ elim (Memᴰ.cases_cons mb) [
            | inl eb ↦ ea ∙ sym eb
            | inr mb' ↦
                let above = later b mb' in let pa = ap (λ n. n.place) ea in absurd (ground arith)
          ]
          | inr ma' ↦ elim (Memᴰ.cases_cons mb) [
            | inl eb ↦
                let above = later a ma' in let pb = ap (λ n. n.place) eb in absurd (ground arith)
            | inr mb' ↦ placed a b ma' mb' same
          ]
        ],
        λ n m. elim (Memᴰ.cases_cons m) [
          | inl e ↦ let p = ap (λ n. n.place) e in omega arith
          | inr m' ↦ let above = later n m' in omega arith
        ],
      )

  anchor_from_iff :
      (signer : Node) (rest anchors : List Node) (now : ℕ)
      → (anchor_from D (signer ∷ rest) anchors now ≡ ok tt)
        ↔ ((reaches_anchor D (signer ∷ rest) anchors now (suc max_path_depth) signer []).0 ≡ true)
  unfolding anchor_from
  anchor_from_iff signer rest anchors now =
      elim (Bool-cases
        (reaches_anchor D (signer ∷ rest) anchors now (suc max_path_depth) signer []).0) [
          | inl e ↦ (λ _. e, λ _. rw e refl)
          | inr e ↦ (λ h. absurd (let h' = rw e at h in cc), λ h. absurd (cc (e, h)))
        ]

-- Where all the certificates can be encoded, the signer is anchored exactly where a path leads from
-- it to a pinned certificate, of at most nine certificates, each one valid at the time, by its name
-- and its signature under the key of the next one, a CA of the chain, or of a pinned one; in any
-- place, a twin for the same subject and key may stand.
pub anchor_signer_iff :
    (D : Der) (chain known : List Certificate) (now : ℕ) (signer : Node) (rest anchors : List Node)
    → new_nodes D 0 chain ≡ ok (signer ∷ rest)
    → new_nodes D 0 known ≡ ok anchors
    → (anchor_signer D chain known now ≡ ok tt)
      ↔ PathToAnchor D (signer ∷ rest) anchors now 9 signer
unfolding anchor_signer
anchor_signer_iff D chain known now signer rest anchors hb ha =
    let (placed, _) = (new_nodes-Placed D 0 chain).at (signer ∷ rest) hb in
    let search_iff =
      reaches_anchor_iff D (signer ∷ rest) anchors now 9 signer placed (Memᴰ.head refl) in
    let from = anchor_from_iff D signer rest anchors now in
    let run : anchor_signer D chain known now ≡ anchor_from D (signer ∷ rest) anchors now =
      >>=-ok _ hb ∙ >>=-ok _ ha in
    (λ h. search_iff.0 (from.0 (sym run ∙ h)), λ path. run ∙ from.1 (search_iff.1 path))
