-- ===== src/Csr.antt =====
-- ayane/src/csr.rs: certificate signing requests. A request keeps the fields that the program reads;
-- the decoders are third-party code, arguments.
use ayane.Base.{Bool, String, not, none, some, List, [], ◌∷◌, ◌++◌, ◌==◌, Option, if◌then◌else◌}
use ayane.Error.{Result, ok, err, ok_or, bad_request, ◌>>=◌}
use ayane.San.{San, Bytes, GeneralName, from_general_name}
use ayane.X509.{Extension, Formats, PublicKey}

pub record Attribute : Type 0 where
  pub oid : String
  pub values : List Bytes

pub record ParsedCsr : Type 0 where
  pub public_key : PublicKey
  pub attributes : List Attribute
  pub der : Bytes

-- what x509_cert, sha2 and the signature check of crypto.rs do with requests
pub record CsrFormats : Type 0 where
  pub from_pem : String → Option ParsedCsr
  pub extension_req_oid : String
  pub extension_req_from_der : Bytes → Option (List Extension)
  pub fingerprint_b64url : Bytes → String
  pub verify_signature : ParsedCsr → Bool

-- `for gn in …: if let Ok(san) = San::try_from(gn) { sans.push(san) }`
unfoldable pub push_names : List San → List GeneralName → List San
push_names sans [] = sans
push_names sans (gn ∷ gns) = elim (from_general_name gn) [
  | some san ↦ push_names (sans ++ san ∷ []) gns
  | none ↦ push_names sans gns
]

module _ (F : Formats) (C : CsrFormats) where
  unfoldable pub from_pem : String → Result ParsedCsr
  from_pem pem = ok_or (C.from_pem pem) (bad_request "invalid CSR PEM")

  unfoldable pub verify_signature : ParsedCsr → Result (Unit {0})
  verify_signature csr =
      if C.verify_signature csr then ok tt else err (bad_request "CSR proof-of-possession failed")

  -- the loop over the extensions of one request
  unfoldable pub extension_sans : List San → List Extension → Result (List San)
  extension_sans sans [] = ok sans
  extension_sans sans (ext ∷ exts) =
      if not (ext.extn_id == F.subject_alt_name_oid) then extension_sans sans exts else do
        names ← ok_or (F.san_from_der ext.extn_value) (bad_request "invalid SubjectAltName")
        extension_sans (push_names sans names) exts

  -- the loop over the values of one attribute
  unfoldable pub value_sans : List San → List Bytes → Result (List San)
  value_sans sans [] = ok sans
  value_sans sans (value ∷ values) = do
    exts ← ok_or (C.extension_req_from_der value) (bad_request "invalid extensionRequest")
    more ← extension_sans sans exts
    value_sans more values

  -- the loop over the attributes
  unfoldable pub attribute_sans : List San → List Attribute → Result (List San)
  attribute_sans sans [] = ok sans
  attribute_sans sans (attr ∷ attrs) =
      if not (attr.oid == C.extension_req_oid)
      then attribute_sans sans attrs
      else do more ← value_sans sans attr.values; attribute_sans more attrs

  unfoldable pub requested_sans : ParsedCsr → Result (List San)
  requested_sans csr = attribute_sans [] csr.attributes
