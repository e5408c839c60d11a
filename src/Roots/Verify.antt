-- ===== src/Roots/Verify.antt =====
-- ayane-cli/src/httpsig.rs and ayane-cli/src/cmd/roots.rs: the check of a signed roots response, and
-- the command that fetches one.
--
-- The hashes, the decoders of PEM and of JSON and the check of a message's signature are the fields of
-- `Checks`. The sums of seconds stay below 2 ^ 64.
use ayane.Base.{
  ◌++◌, nat_eq, ℕ, ◌+◌, ◌-◌, ◌*◌, String, Bool, true, false, not, ◌==◌, ◌&&◌, leb, ltb, Option,
  List, [], ◌∷◌, is_empty, if◌then◌else◌,
}
use ayane.Error.{Result, ok, ok_or, internal, ◌>>=◌, ◌>>◌}
use ayane.San.{Bytes, same_bytes}
use ayane.X509.{Certificate}
use ayane.Ca.Serial.{Text}
use ayane.Httpsig.{
  Base64, RootsSigParams, parse_content_digest, parse_roots_sig_params, parse_signature_key_x509,
  parse_signature_header, roots_signature_base, roots_content_type, x5t_from_digest,
}
use ayane.Service.Revoke.{chars}
use ayane.Roots.{Der, bail, anchor_signer}

pub record Checks : Type 0 where
  pub der : Der
  pub base64 : Base64
  pub sha256 : Bytes → Bytes
  pub sha384 : Bytes → Bytes
  -- the blocks of a PEM text, by their tags
  pub parse_many : Bytes → Option (List (String × Bytes))
  pub from_der : Bytes → Option Certificate
  -- `str::as_bytes`
  pub as_bytes : Text → Bytes
  pub verify_rfc9421_signature : Text → Bytes → Bytes → Bytes → Bool

pub record ResponseHeaders : Type 0 where
  pub content_digest : Text
  pub signature_input : Text
  pub signature : Text
  pub signature_key : Text

abbrev pub skew : ℕ
skew = 60

abbrev pub max_signature_lifetime : ℕ
max_signature_lifetime = 7 * 24 * 3600

-- `if !b { bail!(msg) }`
unfoldable pub require : Bool → String → Result (Unit {0})
require true msg = ok tt
require false msg = bail msg

unfoldable pub check_freshness : RootsSigParams → ℕ → Result (Unit {0})
check_freshness params now = do
  require (not (leb params.expires params.created)) "roots signature expires before it was created"
  require (not (ltb max_signature_lifetime (params.expires - params.created)))
      "roots signature lifetime exceeds the maximum allowed"
  require (not (leb params.expires now)) "roots signature has expired"
  require (not (ltb (now + skew) params.created)) "roots signature is dated in the future"

-- `chain.first()`
unfoldable pub first_of : List Certificate → Result Certificate
first_of [] = bail "signer chain is empty"
first_of (leaf ∷ rest) = ok leaf

module _ (P : Checks) where
  unfoldable pub certificates_of : List (String × Bytes) → Result (List Certificate)
  certificates_of [] = ok []
  certificates_of ((tag, contents) ∷ blocks) =
      if tag == "CERTIFICATE"
      then (do
        cert ← ok_or (P.from_der contents) (internal "der")
        certs ← certificates_of blocks
        ok (cert ∷ certs))
      else certificates_of blocks

  unfoldable pub parse_certificates : Bytes → Result (List Certificate)
  parse_certificates pem_bytes = do
    blocks ← ok_or (P.parse_many pem_bytes) (internal "pem")
    certificates_of blocks

  -- the bytes that are signed
  abbrev pub signed_bytes : ResponseHeaders → RootsSigParams → Bytes
  signed_bytes headers params = P.as_bytes (
      roots_signature_base 200 roots_content_type headers.content_digest headers.signature_key
        params)

  unfoldable pub verify_roots_response :
      Bytes → ResponseHeaders → Bytes → Bytes → ℕ → Result (Unit {0})
  verify_roots_response body headers signer_chain_pem known_roots_pem now = do
    got_digest ← parse_content_digest P.base64 headers.content_digest
    require (same_bytes got_digest (P.sha384 body))
        "roots response Content-Digest does not match the body"
    params ← parse_roots_sig_params headers.signature_input
    check_freshness params now
    key ← parse_signature_key_x509 headers.signature_key
    chain ← parse_certificates signer_chain_pem
    leaf ← first_of chain
    leaf_der ← ok_or (P.der.to_der leaf) (internal "der")
    require (same_bytes (x5t_from_digest P.base64 (P.sha256 leaf_der)) key.1)
        "signer chain leaf does not match the signed x5t thumbprint"
    signature ← parse_signature_header P.base64 headers.signature
    leaf_spki ←
        ok_or (P.der.spki_to_der leaf.tbs_certificate.subject_public_key_info) (internal "der")
    require
        (P.verify_rfc9421_signature params.alg leaf_spki (signed_bytes headers params) signature)
        "roots signature is invalid"
    known ← parse_certificates known_roots_pem
    require (not (is_empty known)) "pinned root bundle contains no certificates"
    anchor_signer P.der chain known now

-- a response: its status, its headers by name and its body
pub record Reply : Type 0 where
  pub status : ℕ
  pub headers : String → Option Text
  pub body : Bytes

-- The client's connection and the URLs, third-party code; the source reads the file of `--root` first.
pub record Fetch : Type 0 where
  pub get : Text → Option Reply
  pub parse_url : Text → Option Text
  pub join : Text → Text → Option Text
  pub same_origin : Text → Text → Bool
  pub certificates_from_slice : Bytes → Option (List String)

unfoldable pub header : Reply → String → Result Text
header reply name = ok_or (reply.headers name) (internal "roots response is missing a header")

unfoldable pub extract_headers : Reply → Result ResponseHeaders
extract_headers reply = do
  content_digest ← header reply "Content-Digest"
  signature_input ← header reply "Signature-Input"
  signature ← header reply "Signature"
  signature_key ← header reply "Signature-Key"
  ok (record {
    content_digest = content_digest;
    signature_input = signature_input;
    signature = signature;
    signature_key = signature_key;
  })

-- `base.trim_end_matches('/')`
unfoldable pub trim_end_slashes : Text → Text
trim_end_slashes [] = []
trim_end_slashes (c ∷ cs) =
    let rest = trim_end_slashes cs in if nat_eq c 47 && is_empty rest then [] else c ∷ rest

-- cmd/mod.rs
unfoldable pub endpoint : Text → String → Text
unfolding chars
endpoint base path = trim_end_slashes base ++ chars path

abbrev pub is_success : ℕ → Bool
is_success s = leb 200 s && ltb s 300

module _ (P : Checks) (W : Fetch) where
  unfoldable pub resolve_same_origin : Text → Text → Result Text
  resolve_same_origin base reference = do
    from ← ok_or (W.parse_url base) (internal "url")
    resolved ← ok_or (W.join from reference) (internal "url")
    require (W.same_origin resolved from) "signer chain URL is not on the CA origin"
    ok resolved

  -- `run`, with the certificates that it prints
  unfoldable pub fetch_roots : Text → Bytes → ℕ → Result (List String)
  fetch_roots url known_roots now = do
    let roots_url = endpoint url "/v1/roots"
    resp ← ok_or (W.get roots_url) (internal "request")
    headers ← extract_headers resp
    require (is_success resp.status) "CA returned an error status"
    key ← parse_signature_key_x509 headers.signature_key
    signer_chain_url ← resolve_same_origin roots_url key.0
    chain ← ok_or (W.get signer_chain_url) (internal "request")
    require (not (leb 400 chain.status && ltb chain.status 600)) "signer chain"
    verify_roots_response P resp.body headers chain.body known_roots now
    ok_or (W.certificates_from_slice resp.body) (internal "json")
