-- ===== src/Http.antt =====
-- ayane/src/http.rs: the URL and the id of a request, the responses to errors, and the two endpoints
-- of the signed roots. Header maps, names, the text of header values and the JSON of a problem are the
-- fields of `HttpTypes`, of the crates http and serde_json.
pub mod Served
use ayane.Base.{
  ℕ, String, Bool, ◌&&◌, ◌==◌, leb, ltb, nat_eq, Option, none, some, List, [], ◌∷◌, ◌++◌, is_empty,
  unwrap_or, if◌then◌else◌,
}
use ayane.Error.{Error, Result, ok, err, internal, ok_or, ProblemDetails, status, to_problem, ◌>>=◌}
use ayane.Action.{Action, lift}
use ayane.Time.{SystemTime}
use ayane.San.{Bytes}
use ayane.Ca.Serial.{Text}
use ayane.Service.Revoke.{chars}
use ayane.Roots.Verify.{trim_end_slashes}
use ayane.Service.Roots.{RootsSigner, SignedRoots, signed_roots}

-- the entries of a header map, by their names in lower case
abbrev pub HeaderMap : Type 0
HeaderMap = List (String × Text)

pub record HttpTypes : Type 0 where
  -- `HeaderName::from_bytes`
  pub header_name : String → Option String
  -- `HeaderMap::insert` and `get`
  pub insert : String → Text → HeaderMap → HeaderMap
  pub get : String → HeaderMap → Option Text
  -- what `HeaderValue::from_str` and `to_str` take
  pub is_visible_ascii : Text → Bool
  pub problem_json : ProblemDetails → Bytes
  pub hex_encode : Bytes → Text

-- a method and version apart, which the router reads
pub record HttpRequest : Type 0 where
  pub path : Text
  pub headers : HeaderMap

pub record HttpResponse : Type 0 where
  pub status_code : ℕ
  pub headers : HeaderMap
  pub body : Bytes

-- `StatusCode::from_u16(code).unwrap_or(INTERNAL_SERVER_ERROR)`
unfoldable pub status_of : ℕ → ℕ
status_of code = if leb 100 code && ltb code 1000 then code else 500

-- `a.or(b)`
unfoldable pub or : Option Text → Option Text → Option Text
or (some a) b = some a
or none b = b

module _ (H : HttpTypes) where
  -- `headers.get(name).and_then(|v| v.to_str().ok())`
  unfoldable pub header : HeaderMap → String → Option Text
  header headers name = elim (H.header_name name) [
    | none ↦ none
    | some n ↦ elim (H.get n headers) [
      | none ↦ none
      | some value ↦ if H.is_visible_ascii value then some value else none
    ]
  ]

  -- the extractor `RequestUrl`
  unfoldable pub request_url : Option Text → HttpRequest → Text
  unfolding chars
  request_url (some base) req = trim_end_slashes base ++ req.path
  request_url none req =
      unwrap_or (header req.headers "x-forwarded-proto") (chars "https")
      ++ chars "://"
      ++ unwrap_or (or (header req.headers "x-forwarded-host") (header req.headers "host"))
          (chars "localhost")
      ++ req.path

  -- the extractor `RequestId`, with the sixteen bytes that are drawn
  unfoldable pub request_id : Bytes → HttpRequest → Text
  request_id drawn req = unwrap_or (header req.headers "x-request-id") (H.hex_encode drawn)

  -- the extractor `Dpop`
  unfoldable pub dpop_header : HttpRequest → Option Text
  dpop_header req = header req.headers "DPoP"

  -- `ApiError::into_response`
  unfoldable pub into_response : Error → HttpResponse
  unfolding chars
  into_response e = record {
    status_code = status_of (status e);
    headers =
        H.insert "content-type" (chars "application/problem+json")
          (("content-type", chars "application/json") ∷ []);
    body = H.problem_json (to_problem e);
  }

  -- a handler's answer as the router sends it
  unfoldable pub respond : Result HttpResponse → HttpResponse
  respond (ok response) = response
  respond (err e) = into_response e

  unfoldable pub set_header : String → Text → HeaderMap → Result HeaderMap
  set_header name value headers = do
    n ← ok_or (H.header_name name) (internal "invalid header name")
    if H.is_visible_ascii value
        then ok (H.insert n value headers)
        else err (internal "invalid header value")

  -- the response of the handler `roots`
  unfoldable pub roots_response : SignedRoots → Result HttpResponse
  unfolding chars
  roots_response signed = do
    typed ←
        set_header "content-type" signed.content_type
          (("content-type", chars "application/octet-stream") ∷ [])
    digested ← set_header "Content-Digest" signed.content_digest typed
    keyed ← set_header "Signature-Key" signed.signature_key digested
    input ← set_header "Signature-Input" signed.signature_input keyed
    sent ← set_header "Signature" signed.signature input
    ok (record { status_code = 200; headers = sent; body = signed.body })

  -- the handler `roots`
  unfoldable pub roots : {S : Type 0} → RootsSigner S → SystemTime → Action S HttpResponse
  unfolding ayane.Action.◌>>=◌
  roots self now = ayane.Action.◌>>=◌ (signed_roots self now) λ signed. lift (roots_response signed)

  -- the handler `roots_signer_chain`, of the text of the CA's chain
  unfoldable pub roots_signer_chain : Bytes → HttpResponse
  unfolding chars
  roots_signer_chain chain_pem = record {
    status_code = 200;
    headers =
        H.insert "content-type" (chars "application/pem-certificate-chain")
          (("content-type", chars "text/plain; charset=utf-8") ∷ []);
    body = chain_pem;
  }
