-- ===== src/Service/Roots.antt =====
-- ayane/src/service.rs, `signed_roots`, with the typed cache of ayane/src/storage/mod.rs.
pub mod Answered
use ayane.Base.{
  ℕ, ◌+◌, ◌/◌, min, ltb, String, Option, none, some, unwrap_or, List, [], ◌∷◌, ◌++◌, if◌then◌else◌,
}
use Prim.Native.String
use ayane.Error.{Error, Result, ok, err, ok_or, internal}
use ayane.Action.{Action, pure, lift, ◌>>=◌, ◌>>◌}
use ayane.Time.{SystemTime, Duration, from_secs, as_secs}
use ayane.San.{Bytes}
use ayane.Crypto.{SignatureAlgorithm, rfc9421_alg}
use ayane.Ca.Serial.{Text}
use ayane.Storage.{Storage, secs}
use ayane.Service.Revoke.{chars}
use ayane.Httpsig.{
  Base64, RootsSigParams, signer_chain_path, content_digest_header, x5t_from_digest,
  signature_key_x509, signature_input_value, signature_header_value, roots_signature_base,
  roots_content_type,
}

pub record SignedRoots : Type 0 where
  pub body : Bytes
  pub content_type : Text
  pub content_digest : Text
  pub signature_input : Text
  pub signature : Text
  pub signature_key : Text

pub record CachedRootsSig : Type 0 where
  pub created : ℕ
  pub expires : ℕ
  pub signature_key : Text
  pub signature : Text
  pub signature_input : Text

-- What the service signs with. The hashes, the encoders and the key are third-party code.
pub record RootsSigner (S : Type 0) : Type 0 where
  pub storage : Storage S
  pub roots_pem : List String
  pub roots_to_vec : List String → Option Bytes
  pub cached_to_vec : CachedRootsSig → Option Bytes
  pub cached_from_slice : Bytes → Option CachedRootsSig
  pub base64 : Base64
  pub sha384 : Bytes → Bytes
  pub hex_encode : Bytes → String
  pub as_bytes : Text → Bytes
  pub signer_leaf_sha256 : Bytes
  pub signing_algorithm : SignatureAlgorithm
  pub sign_http_message : Bytes → Result Bytes
  pub roots_signature_ttl : Duration
  pub external_url : Option Text

module _ {S : Type 0} (self : RootsSigner S) where
  unfoldable pub decode_cached : Option Bytes → Result (Option CachedRootsSig)
  decode_cached none = ok none
  decode_cached (some bytes) = elim (self.cached_from_slice bytes) [
    | some cached ↦ ok (some cached)
    | none ↦ err (internal "deserialize cache")
  ]

  unfoldable pub cache_get : SystemTime → String → Action S (Option CachedRootsSig)
  cache_get now key = do found ← self.storage.get_cache now key; lift (decode_cached found)

  unfoldable pub cache_set : String → CachedRootsSig → SystemTime → Action S (Unit {0})
  cache_set key value expires_at = do
    bytes ← lift (ok_or (self.cached_to_vec value) (internal "serialize cache"))
    self.storage.set_cache key bytes expires_at

  -- `self.roots_signature_ttl / 4`, five minutes at most
  abbrev pub refresh_margin : Duration
  refresh_margin = min (self.roots_signature_ttl / 4) (from_secs 300)

  unfoldable pub usable : ℕ → Option CachedRootsSig → Option CachedRootsSig
  usable now_secs none = none
  usable now_secs (some cached) =
      if ltb (now_secs + as_secs refresh_margin) cached.expires then some cached else none

  abbrev pub url_of_chain : Text
  url_of_chain = unwrap_or self.external_url [] ++ signer_chain_path

  abbrev pub key_header : Text
  key_header = signature_key_x509 url_of_chain (x5t_from_digest self.base64 self.signer_leaf_sha256)

  unfoldable pub sig_params : SystemTime → RootsSigParams
  unfolding chars
  sig_params now = record {
    created = secs now;
    expires = secs now + as_secs self.roots_signature_ttl;
    alg = chars (rfc9421_alg self.signing_algorithm);
  }

  unfoldable pub sign_roots : SystemTime → Bytes → Text → String → Action S SignedRoots
  sign_roots now body content_digest cache_key = do
    let params = sig_params now
    raw ← lift (
        self.sign_http_message (
          self.as_bytes
            (roots_signature_base 200 roots_content_type content_digest key_header params)))
    let signature = signature_header_value self.base64 raw
    let signature_input = signature_input_value params
    cache_set cache_key
        (record {
          created = params.created;
          expires = params.expires;
          signature_key = key_header;
          signature = signature;
          signature_input = signature_input;
        })
        (now + self.roots_signature_ttl)
    pure (record {
      body = body;
      content_type = roots_content_type;
      content_digest = content_digest;
      signature_input = signature_input;
      signature = signature;
      signature_key = key_header;
    })

  unfoldable pub from_cache : Bytes → Text → CachedRootsSig → SignedRoots
  from_cache body content_digest cached = record {
    body = body;
    content_type = roots_content_type;
    content_digest = content_digest;
    signature_input = cached.signature_input;
    signature = cached.signature;
    signature_key = cached.signature_key;
  }

  abbrev pub roots_cache_key : Bytes → String
  roots_cache_key body = String.◌++◌ "roots-sig:v1:" (self.hex_encode (self.sha384 body))

  unfoldable pub cached_or_signed :
      SystemTime → Bytes → Text → Option CachedRootsSig → Action S SignedRoots
  cached_or_signed now body content_digest (some cached) =
      pure (from_cache body content_digest cached)
  cached_or_signed now body content_digest none =
      sign_roots now body content_digest (roots_cache_key body)

  unfoldable pub signed_roots : SystemTime → Action S SignedRoots
  signed_roots now = do
    body ← lift (ok_or (self.roots_to_vec self.roots_pem) (internal "serialize roots"))
    cached ← cache_get now (roots_cache_key body)
    cached_or_signed now body (content_digest_header self.base64 (self.sha384 body))
        (usable (secs now) cached)
