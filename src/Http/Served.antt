-- ===== src/Http/Served.antt =====
-- ayane/src/http.rs with ayane-cli/src/cmd/roots.rs: what the server sends is what the command reads.
use ayane.Base.{
  ◌==◌, false, ℕ, String, ◌≡◌, ◌≤◌, ◌∙◌, refl, sym, ap, true, Bool-cases, inl, inr, List, [],
  Option, some, unwrap_or,
}
use ayane.Error.{Result, ok, >>=-ok, Ensures, Ensures-bind, Ensures-ok, Ensures-err}
use ayane.Action.{lift, >>=-eq-ok}
use ayane.Time.{SystemTime}
use ayane.San.{Bytes}
use ayane.Ca.Serial.{Text}
use ayane.Service.Roots.{
  RootsSigner, SignedRoots, signed_roots, cache_get, sig_params, roots_cache_key, CachedRootsSig,
  url_of_chain, from_cache,
}
use ayane.Httpsig.{quote, x5t_from_digest, parse_signature_key_x509}
use ayane.Httpsig.KeyHeader.{parse-signature_key_x509}
use ayane.Roots.Trusted.{IsFresh}
use ayane.Service.Roots.Answered.{Source, signed_roots-Answer}
use ayane.Httpsig.Texts.{Free}
use ayane.Roots.Verify.{
  endpoint, Checks, Fetch, Reply, ResponseHeaders, extract_headers, fetch_roots,
  resolve_same_origin, verify_roots_response,
}
use ayane.Roots.Accepted.{IsEncoding, IsSigners, P, headers_of, signed_roots-verify}
use ayane.Http.{
  HttpTypes, HttpResponse, HeaderMap, header, set_header, roots_response, roots, roots_signer_chain,
}

-- The names of the headers are valid, and become lower case; what is inserted is found, and leaves the
-- other names as they are.
pub record IsHttp (H : HttpTypes) : Type 0 where
  pub inserted :
      (name : String) (value : Text) (headers : HeaderMap)
      → H.get name (H.insert name value headers) ≡ some value
  pub kept :
      (name other : String) (value : Text) (headers : HeaderMap)
      → (name == other) ≡ false
      → H.get name (H.insert other value headers) ≡ H.get name headers
  pub content_type : H.header_name "content-type" ≡ some "content-type"
  pub content_digest : H.header_name "Content-Digest" ≡ some "content-digest"
  pub signature_key : H.header_name "Signature-Key" ≡ some "signature-key"
  pub signature_input : H.header_name "Signature-Input" ≡ some "signature-input"
  pub signature : H.header_name "Signature" ≡ some "signature"

-- a response as the client's library gives it
abbrev pub reply_of : HttpTypes → HttpResponse → Reply
reply_of H response = record {
  status = response.status_code;
  headers = header H response.headers;
  body = response.body;
}

reply-extract_headers :
    (reply : Reply) (h : ResponseHeaders)
    → reply.headers "Content-Digest" ≡ some h.content_digest
    → reply.headers "Signature-Input" ≡ some h.signature_input
    → reply.headers "Signature" ≡ some h.signature
    → reply.headers "Signature-Key" ≡ some h.signature_key
    → extract_headers reply ≡ ok h
unfolding extract_headers ayane.Roots.Verify.header ayane.Error.◌>>=◌
reply-extract_headers reply h digest input sent key = rw (digest, input, sent, key) refl

module _ (H : HttpTypes) where
  -- A header that is set has a value that can be read.
  record Places (name : String) (value : Text) (before after : HeaderMap) : Type 0 where
    inserted : after ≡ H.insert name value before
    readable : H.is_visible_ascii value ≡ true

  set_header-Places :
      (name n : String) (value : Text) (headers : HeaderMap)
      → H.header_name name ≡ some n
      → Ensures (Places n value headers) (set_header H name value headers)
  unfolding set_header
  set_header-Places name n value headers valid = Ensures-bind _ _ λ found e.
      let same : found ≡ n = (let e2 = rw valid at e in cc) in
      elim (Bool-cases (H.is_visible_ascii value)) [
        | inl readable ↦ rw readable (
            Ensures-ok _
              (record { inserted = ap (λ m. H.insert m value headers) same; readable = readable }))
        | inr other ↦ rw other (Ensures-err _)
      ]

  header-found :
      (name n : String) (value : Text) (headers : HeaderMap)
      → H.header_name name ≡ some n
      → H.get n headers ≡ some value
      → H.is_visible_ascii value ≡ true
      → header H headers name ≡ some value
  unfolding header
  header-found name n value headers valid found readable = rw (header, valid, found, readable) refl

  module _ (names : IsHttp H) where
    placed :
        {name : String} {value : Text} {before after : HeaderMap}
        → Places name value before after
        → H.get name after ≡ some value
    placed {name} {value} {before} p = ap (H.get name) p.inserted ∙ names.inserted name value before

    past :
        {name other : String} {value : Text} {before after : HeaderMap}
        → Places other value before after
        → (name == other) ≡ false
        → H.get name after ≡ H.get name before
    past {name} {other} {value} {before} p apart =
        ap (H.get name) p.inserted ∙ names.kept name other value before apart

  -- What is sent of a signed response.
  record IsSent (out : SignedRoots) (response : HttpResponse) : Type 0 where
    status : response.status_code ≡ 200
    body : response.body ≡ out.body
    headers : extract_headers (reply_of H response) ≡ ok (headers_of out)

  roots_response-IsSent :
      (out : SignedRoots) → IsHttp H → Ensures (IsSent out) (roots_response H out)
  unfolding roots_response
  roots_response-IsSent out names = Ensures-bind _ _ λ typed h0. Ensures-bind _ _ λ digested h1.
      Ensures-bind _ _ λ keyed h2. Ensures-bind _ _ λ input h3. Ensures-bind _ _ λ sent h4.
        let s0 = (set_header-Places _ _ _ _ names.content_type).at typed h0 in
        let s1 = (set_header-Places _ _ _ _ names.content_digest).at digested h1 in
        let s2 = (set_header-Places _ _ _ _ names.signature_key).at keyed h2 in
        let s3 = (set_header-Places _ _ _ _ names.signature_input).at input h3 in
        let s4 = (set_header-Places _ _ _ _ names.signature).at sent h4 in
        Ensures-ok _ (record {
          status = refl;
          body = refl;
          headers =
              reply-extract_headers _ (headers_of out)
                (header-found _ _ _ sent names.content_digest
                  (past names s4 refl ∙ past names s3 refl ∙ past names s2 refl ∙ placed names s1)
                  s1.readable)
                (header-found _ _ _ sent names.signature_input
                  (past names s4 refl ∙ placed names s3) s3.readable)
                (header-found _ _ _ sent names.signature (placed names s4) s4.readable)
                (header-found _ _ _ sent names.signature_key
                  (past names s4 refl ∙ past names s3 refl ∙ placed names s2) s2.readable);
        })

module _ (H : HttpTypes) (W : Fetch) where
  -- The network: the answers of the two endpoints.
  pub record IsServedBy (url chain_url : Text) (response : HttpResponse) (chain_pem : Bytes)
      : Type 0 where
    pub first : W.get (endpoint url "/v1/roots") ≡ some (reply_of H response)
    pub second : W.get chain_url ≡ some (reply_of H (roots_signer_chain H chain_pem))

  fetch-sent :
      (checks : Checks) (url chain_url : Text) (response : HttpResponse) (out : SignedRoots)
      (chain_pem known_pem : Bytes) (later : ℕ) (key : Text × Text) (certificates : List String)
      → IsServedBy url chain_url response chain_pem
      → IsSent H out response
      → parse_signature_key_x509 out.signature_key ≡ ok key
      → resolve_same_origin checks W (endpoint url "/v1/roots") key.0 ≡ ok chain_url
      → verify_roots_response checks out.body (headers_of out) chain_pem known_pem later ≡ ok tt
      → W.certificates_from_slice out.body ≡ some certificates
      → fetch_roots checks W url known_pem later ≡ ok certificates
  unfolding fetch_roots ayane.Error.◌>>=◌ ayane.Roots.Verify.require roots_signer_chain
  fetch-sent checks url chain_url response out chain_pem known_pem later key certificates net sent
        named near accepted listed =
      rw
        (net.first, sent.headers, sent.status, named, near, net.second, sent.body, accepted, listed)
        refl

-- Where a client's connection gives it what the endpoints of the roots and of the signer's chain
-- answer, the second one at the URL that the server names, on the origin of the first, the command
-- succeeds and prints the certificates of the server's bundle: while the signature, made now or taken
-- from the cache, is fresh, where the client has the server's base64, hash and encoding, the chain's
-- first certificate is the server's and is anchored in the client's bundle, and the server's URL has
-- no quote.
pub fetch_roots-served :
    {S : Type 0} (H : HttpTypes) (self : RootsSigner S) (checks : Checks) (W : Fetch)
    (url chain_url : Text) (chain_pem known_pem : Bytes) (later : ℕ) (now at : SystemTime)
    (body : Bytes) (cached : Option CachedRootsSig) (s : S) (response : HttpResponse)
    (certificates : List String)
    → IsHttp H
    → IsEncoding self
    → IsSigners self checks chain_pem known_pem later
    → IsFresh (sig_params self at) later
    → (sig_params self at).expires ≤ 18_446_744_073_709_551_615
    → Free quote (unwrap_or self.external_url [])
    → self.roots_to_vec self.roots_pem ≡ some body
    → (cache_get self now (roots_cache_key self body) s).0 ≡ ok cached
    → Source self now at body cached
    → (roots H self now s).0 ≡ ok response
    → IsServedBy H W url chain_url response chain_pem
    → resolve_same_origin (P self checks) W (endpoint url "/v1/roots") (url_of_chain self)
      ≡ ok chain_url
    → W.certificates_from_slice body ≡ some certificates
    → fetch_roots (P self checks) W url known_pem later ≡ ok certificates
unfolding roots from_cache lift x5t_from_digest
fetch_roots-served H self checks W url chain_url chain_pem known_pem later now at body cached s
      response certificates names same signers fresh bounded unquoted hb hc source h net near
      listed =
    let (out, signed, moved) = >>=-eq-ok (signed_roots self now) _ s h in
    let sent = (roots_response-IsSent H out names).at response (sym (ap (λ o. o.0) moved) ∙ h) in
    let a = signed_roots-Answer self now at body cached s out hb hc source signed in
    fetch-sent H W (P self checks) url chain_url response out chain_pem known_pem later _
      certificates net sent
      (ap (λ (o : SignedRoots). parse_signature_key_x509 o.signature_key) (sym a.made)
        ∙ parse-signature_key_x509 (unwrap_or self.external_url []) _ unquoted
            (same.laws.unquoted self.signer_leaf_sha256))
      near
      (signed_roots-verify self checks chain_pem known_pem later now at body cached s out same
        signers fresh bounded unquoted hb hc source signed)
      (ap (λ (o : SignedRoots). W.certificates_from_slice o.body) (sym a.made) ∙ listed)
