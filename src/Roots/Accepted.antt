-- ===== src/Roots/Accepted.antt =====
-- The response that the server signs is one that the client accepts.
use ayane.Base.{
  ℕ, ◌≤◌, ◌≡◌, refl, ap, subst, true, false, List, [], ◌∷◌, Option, some, unwrap_or, nat_eq, length,
  is_empty, arith,
}
use ayane.Error.{ok}
use ayane.Time.{SystemTime}
use ayane.San.{Bytes}
use ayane.X509.{Certificate}
use ayane.Crypto.{
  SignatureAlgorithm, ecdsa_sha256, ecdsa_sha384, rsa_pkcs1_sha256, rsa_pkcs1_sha384,
  rsa_pkcs1_sha512, rfc9421_alg,
}
use ayane.Service.Revoke.{chars}
use ayane.Service.Roots.Answered.{digest_of, base_of, entry, Source, signed_roots-Answer}
use ayane.Service.Roots.{
  RootsSigner, SignedRoots, signed_roots, cache_get, sig_params, from_cache, roots_cache_key,
  CachedRootsSig,
}
use ayane.Httpsig.{x5t_from_digest, semicolon, quote}
use ayane.Httpsig.Texts.{Free, Free-of_any}
use ayane.Httpsig.RoundTrip.{
  IsBase64, parse-content_digest_header, parse-signature_header_value, parse-signature_input_value,
}
use ayane.Httpsig.KeyHeader.{parse-signature_key_x509}
use ayane.Roots.Verify.{Checks, ResponseHeaders, verify_roots_response, parse_certificates}
use ayane.Roots.Trusted.{IsTrusted, IsFresh, IsAnchored, verify_roots_response_iff}

-- the headers as the client reads them
abbrev pub headers_of : SignedRoots → ResponseHeaders
headers_of out = record {
  content_digest = out.content_digest;
  signature_input = out.signature_input;
  signature = out.signature;
  signature_key = out.signature_key;
}

-- the names of the algorithms have no semicolon
Free-rfc9421_alg : (a : SignatureAlgorithm) → Free semicolon (chars (rfc9421_alg a))
unfolding chars rfc9421_alg
Free-rfc9421_alg ecdsa_sha256 = Free-of_any semicolon (chars "ecdsa-p256-sha256") refl
Free-rfc9421_alg ecdsa_sha384 = Free-of_any semicolon (chars "ecdsa-p384-sha384") refl
Free-rfc9421_alg rsa_pkcs1_sha256 = Free-of_any semicolon (chars "rsa-v1_5-sha256") refl
Free-rfc9421_alg rsa_pkcs1_sha384 = Free-of_any semicolon (chars "rsa-v1_5-sha384") refl
Free-rfc9421_alg rsa_pkcs1_sha512 = Free-of_any semicolon (chars "rsa-v1_5-sha512") refl

-- base64 reads what it writes, and the digest has 48 bytes.
pub record IsEncoding {S : Type 0} (self : RootsSigner S) : Type 0 where
  pub laws : IsBase64 self.base64
  pub size : (b : Bytes) → nat_eq (length (self.sha384 b)) 48 ≡ true

module _ {S : Type 0} (self : RootsSigner S) (checks : Checks) where
  -- the client's code, with the hash and the encoders that the server has too
  abbrev pub P : Checks
  P = record checks { base64 = self.base64; sha384 = self.sha384; as_bytes = self.as_bytes }

  -- A chain whose first certificate is the signer's, with the key that its signatures are valid under,
  -- anchored in the bundle at the client's time.
  pub record IsSigners (chain_pem known_pem : Bytes) (later : ℕ) : Type 0 where
    pub leaf : Certificate
    pub more : List Certificate
    pub chain : parse_certificates P chain_pem ≡ ok (leaf ∷ more)
    pub leaf_der : Bytes
    pub encoded : P.der.to_der leaf ≡ some leaf_der
    pub thumbprint : P.sha256 leaf_der ≡ self.signer_leaf_sha256
    pub spki : Bytes
    pub keyed : P.der.spki_to_der leaf.tbs_certificate.subject_public_key_info ≡ some spki
    pub valid :
        (message signature : Bytes)
        → self.sign_http_message message ≡ ok signature
        → P.verify_rfc9421_signature
            (chars (rfc9421_alg self.signing_algorithm))
            spki
            message
            signature
          ≡ true
    pub known : List Certificate
    pub bundle : parse_certificates P known_pem ≡ ok known
    pub pinned : is_empty known ≡ false
    pub anchored : IsAnchored P.der (leaf ∷ more) known later

  module _ (chain_pem known_pem : Bytes) (later : ℕ) (now : SystemTime) (same : IsEncoding self)
      (signers : IsSigners chain_pem known_pem later) (fresh : IsFresh (sig_params self now) later)
      (bounded : (sig_params self now).expires ≤ 18_446_744_073_709_551_615)
      (unquoted : Free quote (unwrap_or self.external_url [])) where
    -- what is signed over a body, and what is answered and kept of it
    signature-IsTrusted :
        (body raw : Bytes)
        → self.sign_http_message (base_of self now body) ≡ ok raw
        → IsTrusted P body
            (headers_of (from_cache self body (digest_of self body) (entry self now raw)))
            chain_pem
            known_pem
            later
    unfolding sig_params x5t_from_digest from_cache
    signature-IsTrusted body raw hr = record {
      digest =
          parse-content_digest_header self.base64 same.laws (self.sha384 body) (same.size body);
      params = sig_params self now;
      read =
          parse-signature_input_value (sig_params self now) (omega arith) bounded
            (Free-rfc9421_alg self.signing_algorithm);
      fresh = fresh;
      key = (_, _);
      named =
          parse-signature_key_x509 (unwrap_or self.external_url [])
            (self.base64.encode_url self.signer_leaf_sha256) unquoted
            (same.laws.unquoted self.signer_leaf_sha256);
      leaf = signers.leaf;
      more = signers.more;
      chain = signers.chain;
      leaf_der = signers.leaf_der;
      encoded = signers.encoded;
      thumbprint = ap self.base64.encode_url signers.thumbprint;
      spki = signers.spki;
      keyed = signers.keyed;
      signature = raw;
      sent = parse-signature_header_value self.base64 same.laws raw;
      signed = signers.valid _ raw hr;
      known = signers.known;
      bundle = signers.bundle;
      pinned = signers.pinned;
      anchored = signers.anchored;
    }

-- The response that the server answers, one that it signs at the time or one that it takes from its
-- cache and that it signed before, is accepted by a client that has its base64, hash and encoding,
-- while the signature is fresh, where the chain's first certificate is the server's and is anchored in
-- the client's bundle, and the server's URL has no quote.
pub signed_roots-verify :
    {S : Type 0} (self : RootsSigner S) (checks : Checks) (chain_pem known_pem : Bytes) (later : ℕ)
    (now at : SystemTime) (body : Bytes) (cached : Option CachedRootsSig) (s : S)
    (out : SignedRoots)
    → IsEncoding self
    → IsSigners self checks chain_pem known_pem later
    → IsFresh (sig_params self at) later
    → (sig_params self at).expires ≤ 18_446_744_073_709_551_615
    → Free quote (unwrap_or self.external_url [])
    → self.roots_to_vec self.roots_pem ≡ some body
    → (cache_get self now (roots_cache_key self body) s).0 ≡ ok cached
    → Source self now at body cached
    → (signed_roots self now s).0 ≡ ok out
    → verify_roots_response (P self checks) out.body (headers_of out) chain_pem known_pem later
      ≡ ok tt
unfolding from_cache
signed_roots-verify self checks chain_pem known_pem later now at body cached s out same signers
      fresh bounded unquoted hb hc source h =
    let a = signed_roots-Answer self now at body cached s out hb hc source h in
    let trusted =
      signature-IsTrusted self checks chain_pem known_pem later at same signers fresh bounded
        unquoted body a.raw a.valid in
    subst
      (λ (o : SignedRoots).
        verify_roots_response (P self checks) o.body (headers_of o) chain_pem known_pem later
        ≡ ok tt)
      a.made
      ((verify_roots_response_iff (P self checks) body _ chain_pem known_pem later).1 trusted)
