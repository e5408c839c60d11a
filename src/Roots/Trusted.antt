-- ===== src/Roots/Trusted.antt =====
-- What a roots response that is printed has passed.
use ayane.Base.{
  ℕ, ◌+◌, ◌≤◌, ◌<◌, Bool, true, false, ◌≡◌, ◌↔◌, subst, ◌∙◌, refl, sym, ap, some, String, Option,
  List, [], ◌∷◌, arith, is_empty,
}
use ayane.Error.{
  Result, ok, ok_or, ok-injective, Ensures, Ensures-bind, Ensures-ok, Ensures-err, >>=-ok,
}
use ayane.San.{Bytes, same_bytes, same_bytes→eq, same_bytes_self}
use ayane.X509.{Certificate}
use ayane.Ca.Serial.{Text}
use ayane.Httpsig.{
  RootsSigParams, parse_content_digest, parse_roots_sig_params, parse_signature_key_x509,
  parse_signature_header, x5t_from_digest,
}
use ayane.Roots.{Der, Node, new_nodes, anchor_signer, anchor_from}
use ayane.Roots.Path.{PathToAnchor}
use ayane.Roots.Anchored.{anchor_signer_iff}
use ayane.Roots.Verify.{
  Checks, ResponseHeaders, skew, max_signature_lifetime, require, check_freshness, first_of,
  parse_certificates, signed_bytes, verify_roots_response,
}

-- A signer's path to a pinned certificate, in its chain.
pub record IsAnchored (D : Der) (chain known : List Certificate) (now : ℕ) : Type 0 where
  pub signer : Node
  pub rest : List Node
  pub bag : new_nodes D 0 chain ≡ ok (signer ∷ rest)
  pub anchors : List Node
  pub pinned : new_nodes D 0 known ≡ ok anchors
  pub path : PathToAnchor D (signer ∷ rest) anchors now 9 signer

pub require-true : (b : Bool) (msg : String) → Ensures (λ _. b ≡ true) (require b msg)
unfolding require
require-true true msg = Ensures-ok tt refl
require-true false msg = Ensures-err _

anchor_from-some :
    (D : Der) (bag anchors : List Node) (now : ℕ)
    → Ensures
        (λ _. (signer : Node) × (rest : List Node) × (bag ≡ signer ∷ rest))
        (anchor_from D bag anchors now)
unfolding anchor_from
anchor_from-some D [] anchors now = Ensures-err _
anchor_from-some D (signer ∷ rest) anchors now = record { at = λ _ _. (signer, rest, refl) }

anchor_signer-IsAnchored :
    (D : Der) (chain known : List Certificate) (now : ℕ)
    → Ensures (λ _. IsAnchored D chain known now) (anchor_signer D chain known now)
unfolding anchor_signer
anchor_signer-IsAnchored D chain known now = Ensures-bind _ _ λ bag hb.
    Ensures-bind _ _ λ anchors ha. record {
      at = λ u h.
          let (signer, rest, e) = (anchor_from-some D bag anchors now).at u h in
          let hb' = hb ∙ ap ok e in
          record {
            signer = signer;
            rest = rest;
            bag = hb';
            anchors = anchors;
            pinned = ha;
            path =
                (anchor_signer_iff D chain known now signer rest anchors hb' ha).0
                  (>>=-ok _ hb ∙ >>=-ok _ ha ∙ h);
          };
    }

-- The lifetime of a signature, and the time within it.
pub record IsFresh (params : RootsSigParams) (now : ℕ) : Type 0 where
  pub lasts : params.created < params.expires
  pub bounded : params.expires ≤ params.created + max_signature_lifetime
  pub before : now < params.expires
  pub later : params.created ≤ now + skew

check_freshness-IsFresh :
    (params : RootsSigParams) (now : ℕ)
    → Ensures (λ _. IsFresh params now) (check_freshness params now)
unfolding check_freshness
check_freshness-IsFresh params now = Ensures-bind _ _ λ u1 h1. Ensures-bind _ _ λ u2 h2.
    Ensures-bind _ _ λ u3 h3. record {
      at = λ u4 h4.
          let a = (require-true _ _).at u1 h1 in
          let b = (require-true _ _).at u2 h2 in
          let c = (require-true _ _).at u3 h3 in
          let d = (require-true _ _).at u4 h4 in
          record {
            lasts = ground arith;
            bounded = ground arith;
            before = ground arith;
            later = ground arith;
          };
    }

module _ (P : Checks) where
  -- The chain, the parameters and the signature behind a response that is accepted.
  pub record IsTrusted (body : Bytes) (headers : ResponseHeaders) (chain_pem known_pem : Bytes)
      (now : ℕ) : Type 0 where
    pub digest : parse_content_digest P.base64 headers.content_digest ≡ ok (P.sha384 body)
    pub params : RootsSigParams
    pub read : parse_roots_sig_params headers.signature_input ≡ ok params
    pub fresh : IsFresh params now
    pub key : Text × Text
    pub named : parse_signature_key_x509 headers.signature_key ≡ ok key
    pub leaf : Certificate
    pub more : List Certificate
    pub chain : parse_certificates P chain_pem ≡ ok (leaf ∷ more)
    pub leaf_der : Bytes
    pub encoded : P.der.to_der leaf ≡ some leaf_der
    pub thumbprint : x5t_from_digest P.base64 (P.sha256 leaf_der) ≡ key.1
    pub spki : Bytes
    pub keyed : P.der.spki_to_der leaf.tbs_certificate.subject_public_key_info ≡ some spki
    pub signature : Bytes
    pub sent : parse_signature_header P.base64 headers.signature ≡ ok signature
    pub signed :
        P.verify_rfc9421_signature params.alg spki (signed_bytes P headers params) signature ≡ true
    pub known : List Certificate
    pub bundle : parse_certificates P known_pem ≡ ok known
    pub pinned : is_empty known ≡ false
    pub anchored : IsAnchored P.der (leaf ∷ more) known now

  first_of-cons :
      (chain : List Certificate)
      → Ensures (λ leaf. (more : List Certificate) × (chain ≡ leaf ∷ more)) (first_of chain)
  unfolding first_of
  first_of-cons [] = Ensures-err _
  first_of-cons (leaf ∷ more) = Ensures-ok _ (more, refl)

  pub some-of_ok_or :
      {A : Type 0} (o : Option A) (e : ayane.Error.Error) {a : A} → ok_or o e ≡ ok a → o ≡ some a
  some-of_ok_or (some b) e h = ap some (ok-injective h)
  some-of_ok_or Option.none e h = cc

  verify_roots_response-IsTrusted :
      (body : Bytes) (headers : ResponseHeaders) (chain_pem known_pem : Bytes) (now : ℕ)
      → Ensures
          (λ _. IsTrusted body headers chain_pem known_pem now)
          (verify_roots_response P body headers chain_pem known_pem now)
  unfolding verify_roots_response
  verify_roots_response-IsTrusted body headers chain_pem known_pem now = Ensures-bind _ _ λ got hg.
      Ensures-bind _ _ λ u1 h1. Ensures-bind _ _ λ params hp. Ensures-bind _ _ λ u2 h2.
        Ensures-bind _ _ λ key hk. Ensures-bind _ _ λ chain hch. Ensures-bind _ _ λ leaf hl.
          Ensures-bind _ _ λ leaf_der hd. Ensures-bind _ _ λ u3 h3. Ensures-bind _ _ λ sig hs.
            Ensures-bind _ _ λ spki hq. Ensures-bind _ _ λ u4 h4. Ensures-bind _ _ λ known hn.
              Ensures-bind _ _ λ u6 h6. record {
                at = λ u5 h5.
                    let (more, e) = (first_of-cons chain).at leaf hl in
                    record {
                      digest =
                          hg
                          ∙ ap ok (same_bytes→eq got (P.sha384 body) ((require-true _ _).at u1 h1));
                      params = params;
                      read = hp;
                      fresh = (check_freshness-IsFresh params now).at u2 h2;
                      key = key;
                      named = hk;
                      leaf = leaf;
                      more = more;
                      chain = hch ∙ ap ok e;
                      leaf_der = leaf_der;
                      encoded = some-of_ok_or _ _ hd;
                      thumbprint = same_bytes→eq _ _ ((require-true _ _).at u3 h3);
                      spki = spki;
                      keyed = some-of_ok_or _ _ hq;
                      signature = sig;
                      sent = hs;
                      signed = (require-true _ _).at u4 h4;
                      known = known;
                      bundle = hn;
                      pinned = let q = (require-true _ _).at u6 h6 in ground arith;
                      anchored =
                          (anchor_signer-IsAnchored P.der (leaf ∷ more) known now).at u5
                            (sym (ap (λ c. anchor_signer P.der c known now) e) ∙ h5);
                    };
              }

  require-ok : (b : Bool) (msg : String) → b ≡ true → require b msg ≡ ok tt
  unfolding require
  require-ok true msg h = refl
  require-ok false msg h = cc

  IsFresh-check :
      (params : RootsSigParams) (now : ℕ) → IsFresh params now → check_freshness params now ≡ ok tt
  unfolding check_freshness
  IsFresh-check params now f =
      let lasts = f.lasts in
      let bounded = f.bounded in
      let before = f.before in
      let later = f.later in
      >>=-ok _ (require-ok _ _ (ground arith))
      ∙ >>=-ok _ (require-ok _ _ (ground arith))
      ∙ >>=-ok _ (require-ok _ _ (ground arith))
      ∙ require-ok _ _ (ground arith)

  same : (a b : Bytes) → a ≡ b → same_bytes a b ≡ true
  same a b e = subst (λ c. same_bytes a c ≡ true) e (same_bytes_self a)

  ok_or-eq :
      {A : Type 0} (o : Option A) (e : ayane.Error.Error) {a : A} → o ≡ some a → ok_or o e ≡ ok a
  ok_or-eq o e h = rw h refl

  IsTrusted-verify :
      (body : Bytes) (headers : ResponseHeaders) (chain_pem known_pem : Bytes) (now : ℕ)
      → IsTrusted body headers chain_pem known_pem now
      → verify_roots_response P body headers chain_pem known_pem now ≡ ok tt
  unfolding verify_roots_response first_of
  IsTrusted-verify body headers chain_pem known_pem now t =
      >>=-ok _ t.digest
      ∙ >>=-ok _ (require-ok _ _ (same_bytes_self (P.sha384 body)))
      ∙ >>=-ok _ t.read
      ∙ >>=-ok _ (IsFresh-check t.params now t.fresh)
      ∙ >>=-ok _ t.named
      ∙ >>=-ok _ t.chain
      ∙ >>=-ok _ refl
      ∙ >>=-ok _ (ok_or-eq _ _ t.encoded)
      ∙ >>=-ok _ (require-ok _ _ (same _ _ t.thumbprint))
      ∙ >>=-ok _ t.sent
      ∙ >>=-ok _ (ok_or-eq _ _ t.keyed)
      ∙ >>=-ok _ (require-ok _ _ t.signed)
      ∙ >>=-ok _ t.bundle
      ∙ >>=-ok _ (require-ok _ _ (rw t.pinned refl))
      ∙ (let a = t.anchored in
          (anchor_signer_iff P.der (t.leaf ∷ t.more) t.known now a.signer a.rest a.anchors a.bag
              a.pinned).1
            a.path)

-- A roots response is accepted exactly where the digest is the body's, the signature is fresh and
-- valid under the key of the first certificate of the chain, whose thumbprint is signed, and a path
-- leads from it to a pinned certificate.
pub verify_roots_response_iff :
    (P : Checks) (body : Bytes) (headers : ResponseHeaders) (chain_pem known_pem : Bytes) (now : ℕ)
    → (verify_roots_response P body headers chain_pem known_pem now ≡ ok tt)
      ↔ IsTrusted P body headers chain_pem known_pem now
verify_roots_response_iff P body headers chain_pem known_pem now = (
  (verify_roots_response-IsTrusted P body headers chain_pem known_pem now).at tt,
  IsTrusted-verify P body headers chain_pem known_pem now,
)
