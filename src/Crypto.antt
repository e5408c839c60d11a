-- ===== src/Crypto.antt =====
-- ayane/src/crypto.rs: the signature algorithms. Their object identifiers are an argument.
use ayane.Base.{String, Bool, true, false}

pub data SignatureAlgorithm : Type 0 where
  ecdsa_sha256 ecdsa_sha384 rsa_pkcs1_sha256 rsa_pkcs1_sha384 rsa_pkcs1_sha512 : SignatureAlgorithm

unfoldable pub is_rsa : SignatureAlgorithm → Bool
is_rsa ecdsa_sha256 = false
is_rsa ecdsa_sha384 = false
is_rsa _ = true

-- `parameters` is whether the identifier has the NULL parameter.
pub record AlgorithmIdentifier : Type 0 where
  pub oid : String
  pub parameters : Bool

unfoldable pub algorithm_identifier :
    (SignatureAlgorithm → String) → SignatureAlgorithm → AlgorithmIdentifier
algorithm_identifier oid a = record { oid = oid a; parameters = is_rsa a }

unfoldable pub rfc9421_alg : SignatureAlgorithm → String
rfc9421_alg ecdsa_sha256 = "ecdsa-p256-sha256"
rfc9421_alg ecdsa_sha384 = "ecdsa-p384-sha384"
rfc9421_alg rsa_pkcs1_sha256 = "rsa-v1_5-sha256"
rfc9421_alg rsa_pkcs1_sha384 = "rsa-v1_5-sha384"
rfc9421_alg rsa_pkcs1_sha512 = "rsa-v1_5-sha512"
