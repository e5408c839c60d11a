-- ===== src/Roots/Fetched.antt =====
-- What the roots that are printed come from.
use ayane.Base.{ℕ, ◌≡◌, true, String, List, some}
use ayane.Error.{ok, Ensures, Ensures-bind, Ensures-ok}
use ayane.San.{Bytes}
use ayane.Ca.Serial.{Text}
use ayane.Httpsig.{parse_signature_key_x509}
use ayane.Roots.Verify.{
  endpoint, Checks, Fetch, Reply, ResponseHeaders, is_success, extract_headers, resolve_same_origin,
  fetch_roots,
}
use ayane.Roots.Trusted.{IsTrusted, verify_roots_response_iff, require-true, some-of_ok_or}

module _ (P : Checks) (W : Fetch) where
  -- the URL that a reference stands for, on the origin that it is read from
  pub record IsSameOrigin (base reference resolved : Text) : Type 0 where
    pub from : Text
    pub parsed : W.parse_url base ≡ some from
    pub joined : W.join from reference ≡ some resolved
    pub same : W.same_origin resolved from ≡ true

  -- The responses behind the certificates that are printed.
  pub record IsFetched (url : Text) (known_roots : Bytes) (now : ℕ) (certificates : List String)
      : Type 0 where
    pub response : Reply
    pub got : W.get (endpoint url "/v1/roots") ≡ some response
    pub headers : ResponseHeaders
    pub carried : extract_headers response ≡ ok headers
    pub success : is_success response.status ≡ true
    pub x5u : Text
    pub x5t : Text
    pub named : parse_signature_key_x509 headers.signature_key ≡ ok (x5u, x5t)
    pub chain_url : Text
    pub origin : IsSameOrigin (endpoint url "/v1/roots") x5u chain_url
    pub chain : Reply
    pub chain_got : W.get chain_url ≡ some chain
    pub trusted : IsTrusted P response.body headers chain.body known_roots now
    pub printed : W.certificates_from_slice response.body ≡ some certificates

  resolve-IsSameOrigin :
      (base reference : Text)
      → Ensures (IsSameOrigin base reference) (resolve_same_origin P W base reference)
  unfolding resolve_same_origin
  resolve-IsSameOrigin base reference = Ensures-bind _ _ λ from hf. Ensures-bind _ _ λ resolved hr.
      Ensures-bind _ _ λ u hs. Ensures-ok _ (record {
        from = from;
        parsed = some-of_ok_or P _ _ hf;
        joined = some-of_ok_or P _ _ hr;
        same = (require-true _ _).at u hs;
      })

  fetch-IsFetched :
      (url : Text) (known_roots : Bytes) (now : ℕ)
      → Ensures (IsFetched url known_roots now) (fetch_roots P W url known_roots now)
  unfolding fetch_roots
  fetch-IsFetched url known_roots now = Ensures-bind _ _ λ response hr.
      Ensures-bind _ _ λ headers hh. Ensures-bind _ _ λ u1 h1. Ensures-bind _ _ λ key hk.
        Ensures-bind _ _ λ chain_url hu. Ensures-bind _ _ λ chain hc. Ensures-bind _ _ λ _ _.
          Ensures-bind _ _ λ u2 h2. record {
            at = λ certificates h. record {
              response = response;
              got = some-of_ok_or P _ _ hr;
              headers = headers;
              carried = hh;
              success = (require-true _ _).at u1 h1;
              x5u = key.0;
              x5t = key.1;
              named = hk;
              chain_url = chain_url;
              origin = (resolve-IsSameOrigin _ key.0).at chain_url hu;
              chain = chain;
              chain_got = some-of_ok_or P _ _ hc;
              trusted =
                  (verify_roots_response_iff P response.body headers chain.body known_roots now).0
                    h2;
              printed = some-of_ok_or P _ _ h;
            };
          }

-- The certificates that the command prints are those of a response whose signature is good under a
-- chain that is anchored in the pinned bundle, and that was fetched from the response's own origin.
pub fetch_roots-IsFetched :
    (P : Checks) (W : Fetch) (url : Text) (known_roots : Bytes) (now : ℕ)
    (certificates : List String)
    → fetch_roots P W url known_roots now ≡ ok certificates
    → IsFetched P W url known_roots now certificates
fetch_roots-IsFetched P W url known_roots now certificates h =
    (fetch-IsFetched P W url known_roots now).at certificates h
