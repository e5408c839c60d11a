-- ===== src/Httpsig.antt =====
-- ayane-protocol/src/httpsig.rs: the headers of a signed roots response, how they are written and how
-- they are read, and the base that is signed.
--
-- base64's encoders are the fields of `Base64`. A text is the list of its character codes. An
-- `HttpSigError`, a text alone, is here an `internal` error.
pub mod Texts
pub mod RoundTrip
pub mod KeyHeader
use ayane.Base.{
  ℕ, zero, suc, ◌+◌, ◌*◌, ◌/◌, ◌%◌, ltb, nat_eq, String, Bool, true, false, ◌&&◌, not, Option, none,
  some, List, [], ◌∷◌, ◌++◌, length, retain, is_empty, if◌then◌else◌,
}
use ayane.Error.{Error, Result, ok, err, ok_or, internal, ◌>>=◌}
use ayane.San.{Bytes, same_bytes}
use ayane.Ca.Serial.{Text}
use ayane.Service.Revoke.{chars, trim, trim_start_matches, is_whitespace}
use ayane.Authorizer.Url.{strip_prefix, parse_u64}

pub record Base64 : Type 0 where
  pub encode : Bytes → Text
  pub decode : Text → Option Bytes
  -- `URL_SAFE_NO_PAD`
  pub encode_url : Bytes → Text

abbrev pub malformed : String → Error
malformed msg = internal msg

abbrev pub colon : ℕ
colon = 58

abbrev pub quote : ℕ
quote = 34

abbrev pub semicolon : ℕ
semicolon = 59

abbrev pub equals : ℕ
equals = 61

-- `format!`, on the pieces in order
abbrev pub joined : List Text → Text
joined [] = []
joined (t ∷ ts) = t ++ joined ts

-- `ROOTS_SIGNATURE_LABEL`
unfoldable pub roots_signature_label : Text
unfolding chars
roots_signature_label = chars "sig"

unfoldable pub signer_chain_path : Text
unfolding chars
signer_chain_path = chars "/v1/roots/signer-chain"

unfoldable pub roots_content_type : Text
unfolding chars
roots_content_type = chars "application/json"

unfoldable pub covered_components : Text
unfolding chars
covered_components = chars "(\"@status\" \"content-type\" \"content-digest\" \"signature-key\")"

pub record RootsSigParams : Type 0 where
  pub created : ℕ
  pub expires : ℕ
  pub alg : Text

-- `strip_suffix` of a character
unfoldable pub strip_last : ℕ → Text → Option Text
strip_last c [] = none
strip_last c (d ∷ []) = if nat_eq d c then some [] else none
strip_last c (d ∷ e ∷ text) = elim (strip_last c (e ∷ text)) [
  | none ↦ none
  | some rest ↦ some (d ∷ rest)
]

-- a text between a prefix and a last character
unfoldable pub between : Text → ℕ → Text → Option Text
between prefix c text = elim (strip_prefix prefix text) [
  | none ↦ none
  | some rest ↦ strip_last c rest
]

-- `split`
unfoldable pub split_on : ℕ → Text → List Text
split_on d [] = [] ∷ []
split_on d (c ∷ text) =
    let rest = split_on d text in
    if nat_eq c d
    then [] ∷ rest
    else elim rest [ [] ↦ (c ∷ []) ∷ [] | part ∷ parts ↦ (c ∷ part) ∷ parts ]

-- `split_once`: before and after the first one
unfoldable pub split_once : ℕ → Text → Option (Text × Text)
split_once d [] = none
split_once d (c ∷ text) =
    let rest = split_once d text in
    if nat_eq c d
    then some ([], text)
    else elim rest [ none ↦ none | some parts ↦ some (c ∷ parts.0, parts.1) ]

-- what comes after the first occurrence
unfoldable pub after : Text → Text → Option Text
after needle [] = strip_prefix needle []
after needle (c ∷ text) =
    let rest = after needle text in
    elim (strip_prefix needle (c ∷ text)) [ some found ↦ some found | none ↦ rest ]

unfoldable pub strip_label : Text → Option Text
strip_label value = elim (strip_prefix roots_signature_label (trim value)) [
  | none ↦ none
  | some rest ↦ strip_prefix (equals ∷ []) rest
]

unfoldable pub quoted_param : Text → Text → Option Text
quoted_param s name = elim (after (name ++ (equals ∷ quote ∷ [])) s) [
  | none ↦ none
  | some rest ↦ elim (split_once quote rest) [ none ↦ none | some parts ↦ some parts.0 ]
]

-- A number in decimal digits; twenty are enough for 64 bits.
unfoldable pub show_digits : ℕ → ℕ → Text
show_digits zero n = []
show_digits (suc places) n =
    let front = show_digits places (n / 10) in
    if ltb n 10 then (48 + n) ∷ [] else front ++ (48 + n % 10) ∷ []

abbrev pub show_u64 : ℕ → Text
show_u64 n = show_digits 20 n

unfoldable pub x509 : Text
unfolding chars
x509 = chars "x509"

unfoldable pub x5u : Text
unfolding chars
x5u = chars "x5u"

unfoldable pub x5t : Text
unfolding chars
x5t = chars "x5t"

unfoldable pub signature_key_x509 : Text → Text → Text
signature_key_x509 url thumbprint = joined (
    roots_signature_label
    ∷ (equals ∷ [])
    ∷ x509
    ∷ (semicolon ∷ [])
    ∷ x5u
    ∷ (equals ∷ quote ∷ [])
    ∷ url
    ∷ (quote ∷ semicolon ∷ [])
    ∷ x5t
    ∷ (equals ∷ quote ∷ [])
    ∷ thumbprint
    ∷ (quote ∷ [])
    ∷ [])

-- `body.trim_start().starts_with("x509")`
unfoldable pub is_x509 : Text → Bool
is_x509 body = elim (strip_prefix x509 (trim_start_matches is_whitespace body)) [
  | none ↦ false
  | some rest ↦ true
]

unfoldable pub x509_params : Text → Result (Text × Text)
x509_params body = do
  url ← ok_or (quoted_param body x5u) (malformed "Signature-Key missing x5u")
  thumbprint ← ok_or (quoted_param body x5t) (malformed "Signature-Key missing x5t")
  ok (url, thumbprint)

unfoldable pub parse_signature_key_x509 : Text → Result (Text × Text)
parse_signature_key_x509 value = do
  body ← ok_or (strip_label value) (malformed "Signature-Key has no `sig` label")
  if is_x509 body then x509_params body else err (malformed "Signature-Key is not the x509 scheme")

unfoldable pub created_key : Text
unfolding chars
created_key = chars "created"

unfoldable pub expires_key : Text
unfolding chars
expires_key = chars "expires"

unfoldable pub alg_key : Text
unfolding chars
alg_key = chars "alg"

unfoldable pub roots_sig_params_value : RootsSigParams → Text
roots_sig_params_value p = joined (
    covered_components
    ∷ (semicolon ∷ [])
    ∷ created_key
    ∷ (equals ∷ [])
    ∷ show_u64 p.created
    ∷ (semicolon ∷ [])
    ∷ expires_key
    ∷ (equals ∷ [])
    ∷ show_u64 p.expires
    ∷ (semicolon ∷ [])
    ∷ alg_key
    ∷ (equals ∷ quote ∷ [])
    ∷ p.alg
    ∷ (quote ∷ [])
    ∷ [])

unfoldable pub signature_input_value : RootsSigParams → Text
signature_input_value p = roots_signature_label ++ (equals ∷ roots_sig_params_value p)

-- what the loop over the parameters has found
pub record Found : Type 0 where
  pub created : Option ℕ
  pub expires : Option ℕ
  pub alg : Option Text

-- `match k`
unfoldable pub take_param : Found → Text → Text → Result Found
take_param found k v =
    if same_bytes k created_key
    then (do
      n ← ok_or (parse_u64 v) (malformed "Signature-Input created")
      ok (record found { created = some n }))
    else if same_bytes k expires_key
    then (do
      n ← ok_or (parse_u64 v) (malformed "Signature-Input expires")
      ok (record found { expires = some n }))
    else if same_bytes k alg_key
    then (do
      a ←
          ok_or (between (quote ∷ []) quote v)
            (malformed "Signature-Input alg is not a quoted string")
      ok (record found { alg = some a }))
    else ok found

unfoldable pub take_params : Found → List Text → Result Found
take_params found [] = ok found
take_params found (param ∷ params) = do
  parts ← ok_or (split_once equals param) (malformed "Signature-Input parameter is not key=value")
  found' ← take_param found parts.0 parts.1
  take_params found' params

abbrev pub nothing_found : Found
nothing_found = record { created = none; expires = none; alg = none }

unfoldable pub parse_roots_sig_params : Text → Result RootsSigParams
parse_roots_sig_params value = do
  body ← ok_or (strip_label value) (malformed "Signature-Input has no `sig` label")
  rest ←
      ok_or (strip_prefix covered_components (trim body))
        (malformed "Signature-Input covered components are not the expected roots set")
  found ← take_params nothing_found (retain (λ s. not (is_empty s)) (split_on semicolon rest))
  created ← ok_or found.created (malformed "Signature-Input missing created")
  expires ← ok_or found.expires (malformed "Signature-Input missing expires")
  alg ← ok_or found.alg (malformed "Signature-Input missing alg")
  ok (record { created = created; expires = expires; alg = alg })

abbrev newline : Text
newline = 10 ∷ []

-- a line of the base: its name, quoted, and its value
unfoldable pub base_line : String → Text → Text
unfolding chars
base_line name value = joined ((quote ∷ []) ∷ chars name ∷ (quote ∷ colon ∷ 32 ∷ []) ∷ value ∷ [])

unfoldable pub roots_signature_base : ℕ → Text → Text → Text → RootsSigParams → Text
roots_signature_base status content_type content_digest signature_key p = joined (
    base_line "@status" (show_u64 status)
    ∷ newline
    ∷ base_line "content-type" content_type
    ∷ newline
    ∷ base_line "content-digest" content_digest
    ∷ newline
    ∷ base_line "signature-key" signature_key
    ∷ newline
    ∷ base_line "@signature-params" (roots_sig_params_value p)
    ∷ [])

unfoldable pub sha_384 : Text
unfolding chars
sha_384 = chars "sha-384=:"

module _ (B : Base64) where
  unfoldable pub content_digest_header : Bytes → Text
  content_digest_header digest = joined (sha_384 ∷ B.encode digest ∷ (colon ∷ []) ∷ [])

  unfoldable pub parse_content_digest : Text → Result Bytes
  parse_content_digest value = do
    inner ←
        ok_or (between sha_384 colon (trim value))
          (malformed "Content-Digest is not a single sha-384 byte sequence")
    bytes ← ok_or (B.decode inner) (malformed "Content-Digest base64")
    if nat_eq (length bytes) 48 then ok bytes else err (malformed "Content-Digest is not 48 bytes")

  unfoldable pub x5t_from_digest : Bytes → Text
  x5t_from_digest leaf_sha256 = B.encode_url leaf_sha256

  unfoldable pub signature_header_value : Bytes → Text
  signature_header_value signature =
      joined
        (roots_signature_label ∷ (equals ∷ colon ∷ []) ∷ B.encode signature ∷ (colon ∷ []) ∷ [])

  unfoldable pub parse_signature_header : Text → Result Bytes
  parse_signature_header value = do
    body ← ok_or (strip_label value) (malformed "Signature has no `sig` label")
    inner ←
        ok_or (between (colon ∷ []) colon (trim body))
          (malformed "Signature is not a byte sequence")
    ok_or (B.decode inner) (malformed "Signature base64")
