-- ===== src/Service/Roots/Answered.antt =====
-- What a signed roots response is made of, and where from.
use ayane.Base.{◌≡◌, ◌∙◌, refl, sym, ap, String, Option, some, none}
use ayane.Error.{ok}
use ayane.Action.{Yields, Yields-bind, Yields-lift-bind, Yields-pure, >>=-ok, lift}
use ayane.Time.{SystemTime}
use ayane.San.{Bytes}
use ayane.Ca.Serial.{Text}
use ayane.Storage.{secs}
use ayane.Service.Roots.{
  RootsSigner, SignedRoots, signed_roots, sign_roots, cached_or_signed, cache_get, usable,
  key_header, sig_params, from_cache, roots_cache_key, CachedRootsSig,
}
use ayane.Httpsig.{
  content_digest_header, signature_header_value, signature_input_value, roots_signature_base,
  roots_content_type,
}

module _ {S : Type 0} (self : RootsSigner S) where
  abbrev pub digest_of : Bytes → Text
  digest_of body = content_digest_header self.base64 (self.sha384 body)

  -- the bytes that are signed
  abbrev pub base_of : SystemTime → Bytes → Bytes
  base_of at body = self.as_bytes (
      roots_signature_base 200 roots_content_type (digest_of body) (key_header self)
        (sig_params self at))

  -- what the cache keeps of a signature
  abbrev pub entry : SystemTime → Bytes → CachedRootsSig
  entry at raw = record {
    created = (sig_params self at).created;
    expires = (sig_params self at).expires;
    signature_key = key_header self;
    signature = signature_header_value self.base64 raw;
    signature_input = signature_input_value (sig_params self at);
  }

  -- The response is signed now, or was signed at some time, is in the cache and is still used.
  pub data Source (now at : SystemTime) (body : Bytes) (cached : Option CachedRootsSig)
      : Type 0 where
    signed_now : at ≡ now → usable self (secs now) cached ≡ none → Source now at body cached
    was_signed :
        (raw : Bytes)
        → self.sign_http_message (base_of at body) ≡ ok raw
        → usable self (secs now) cached ≡ some (entry at raw)
        → Source now at body cached

module _ {S : Type 0} (self : RootsSigner S) (now at : SystemTime) (body : Bytes) where
  -- an answer with a signature of that time
  pub record Answer (out : SignedRoots) : Type 0 where
    pub raw : Bytes
    pub valid : self.sign_http_message (base_of self at body) ≡ ok raw
    pub made : from_cache self body (digest_of self body) (entry self at raw) ≡ out

  sign_roots-Answer :
      (cache_key : String) (s : S)
      → at ≡ now
      → Yields (λ out s'. Answer out) (sign_roots self now body (digest_of self body) cache_key) s
  unfolding sign_roots from_cache
  sign_roots-Answer cache_key s same = rw (sym same) (
      Yields-lift-bind _ _ _ λ raw hr.
        Yields-bind _ _ _ λ _ _. Yields-pure _ _ (record { raw = raw; valid = hr; made = refl }))

  cached_or_signed-Answer :
      (cached : Option CachedRootsSig) (s : S)
      → Source self now at body cached
      → Yields
          (λ out s'. Answer out)
          (cached_or_signed self now body (digest_of self body) (usable self (secs now) cached))
          s
  unfolding cached_or_signed
  cached_or_signed-Answer cached s (Source.signed_now same unused) =
      rw unused (sign_roots-Answer _ s same)
  cached_or_signed-Answer cached s (Source.was_signed raw hr used) =
      rw used (Yields-pure _ _ (record { raw = raw; valid = hr; made = refl }))

  signed_roots-eq :
      (cached : Option CachedRootsSig) (s : S)
      → self.roots_to_vec self.roots_pem ≡ some body
      → (cache_get self now (roots_cache_key self body) s).0 ≡ ok cached
      → signed_roots self now s
        ≡ cached_or_signed self now body
            (digest_of self body)
            (usable self (secs now) cached)
            (cache_get self now (roots_cache_key self body) s).1
  unfolding signed_roots lift
  signed_roots-eq cached s hb hc = >>=-ok _ _ s (rw hb refl) ∙ >>=-ok _ _ s hc

  -- A response is made of a signature over the body, of the time that it was signed at.
  pub signed_roots-Answer :
      (cached : Option CachedRootsSig) (s : S) (out : SignedRoots)
      → self.roots_to_vec self.roots_pem ≡ some body
      → (cache_get self now (roots_cache_key self body) s).0 ≡ ok cached
      → Source self now at body cached
      → (signed_roots self now s).0 ≡ ok out
      → Answer out
  signed_roots-Answer cached s out hb hc source h =
      (cached_or_signed-Answer cached _ source).at out
        (sym (ap (λ o. o.0) (signed_roots-eq cached s hb hc)) ∙ h)
