-- ===== src/Storage/Dynamo/Keys.antt =====
-- ayane/src/storage/dynamodb.rs: the keys of the items. A key's text is a prefix that ends at the
-- text's first colon, and the rest, so texts are equal where the prefixes and the rests are.
use ayane.Base.{String, Bool, true, false, ◌&&◌, ◌==◌, ◌≡◌, refl, ap, eq_iff, eq_refl, arith}
use ayane.San.{same_bytes, same_bytes→eq, same_bytes_self}
use ayane.Ca.Serial.{Text}

-- "certificate:{serial}", "revocation:{serial}", "token:{jti}", "cache:{key}"
pub data PartitionKey : Type 0 where
  certificate_pk revocation_pk : Text → PartitionKey
  token_pk cache_pk : String → PartitionKey

-- "cn:{common_name}", "revocation", "token", "cache"
pub data SortKey : Type 0 where
  certificate_sk : String → SortKey
  revocation_type token_type cache_type : SortKey

pub record Key : Type 0 where
  pub pk : PartitionKey
  pub sk : SortKey

abbrev pub same_pk : PartitionKey → PartitionKey → Bool
same_pk (certificate_pk a) (certificate_pk b) = same_bytes a b
same_pk (revocation_pk a) (revocation_pk b) = same_bytes a b
same_pk (token_pk a) (token_pk b) = a == b
same_pk (cache_pk a) (cache_pk b) = a == b
same_pk _ _ = false

abbrev pub same_sk : SortKey → SortKey → Bool
same_sk (certificate_sk a) (certificate_sk b) = a == b
same_sk revocation_type revocation_type = true
same_sk token_type token_type = true
same_sk cache_type cache_type = true
same_sk _ _ = false

abbrev pub is_certificate_sk : SortKey → Bool
is_certificate_sk (certificate_sk a) = true
is_certificate_sk _ = false

abbrev pub is_revocation_type : SortKey → Bool
is_revocation_type revocation_type = true
is_revocation_type _ = false

abbrev pub same_key : Key → Key → Bool
same_key a b = same_pk a.pk b.pk && same_sk a.sk b.sk

pub same_pk→eq : (a b : PartitionKey) → same_pk a b ≡ true → a ≡ b
same_pk→eq (certificate_pk a) (certificate_pk b) h = ap certificate_pk (same_bytes→eq a b h)
same_pk→eq (certificate_pk a) (revocation_pk b) h = cc
same_pk→eq (certificate_pk a) (token_pk b) h = cc
same_pk→eq (certificate_pk a) (cache_pk b) h = cc
same_pk→eq (revocation_pk a) (revocation_pk b) h = ap revocation_pk (same_bytes→eq a b h)
same_pk→eq (revocation_pk a) (certificate_pk b) h = cc
same_pk→eq (revocation_pk a) (token_pk b) h = cc
same_pk→eq (revocation_pk a) (cache_pk b) h = cc
same_pk→eq (token_pk a) (token_pk b) h = ap token_pk ((eq_iff a b).0 h)
same_pk→eq (token_pk a) (certificate_pk b) h = cc
same_pk→eq (token_pk a) (revocation_pk b) h = cc
same_pk→eq (token_pk a) (cache_pk b) h = cc
same_pk→eq (cache_pk a) (cache_pk b) h = ap cache_pk ((eq_iff a b).0 h)
same_pk→eq (cache_pk a) (certificate_pk b) h = cc
same_pk→eq (cache_pk a) (revocation_pk b) h = cc
same_pk→eq (cache_pk a) (token_pk b) h = cc

same_sk→eq : (a b : SortKey) → same_sk a b ≡ true → a ≡ b
same_sk→eq (certificate_sk a) (certificate_sk b) h = ap certificate_sk ((eq_iff a b).0 h)
same_sk→eq (certificate_sk a) revocation_type h = cc
same_sk→eq (certificate_sk a) token_type h = cc
same_sk→eq (certificate_sk a) cache_type h = cc
same_sk→eq revocation_type (certificate_sk b) h = cc
same_sk→eq revocation_type revocation_type h = refl
same_sk→eq revocation_type token_type h = cc
same_sk→eq revocation_type cache_type h = cc
same_sk→eq token_type (certificate_sk b) h = cc
same_sk→eq token_type revocation_type h = cc
same_sk→eq token_type token_type h = refl
same_sk→eq token_type cache_type h = cc
same_sk→eq cache_type (certificate_sk b) h = cc
same_sk→eq cache_type revocation_type h = cc
same_sk→eq cache_type token_type h = cc
same_sk→eq cache_type cache_type h = refl

pub same_pk_self : (a : PartitionKey) → same_pk a a ≡ true
same_pk_self (certificate_pk a) = same_bytes_self a
same_pk_self (revocation_pk a) = same_bytes_self a
same_pk_self (token_pk a) = eq_refl a
same_pk_self (cache_pk a) = eq_refl a

same_sk_self : (a : SortKey) → same_sk a a ≡ true
same_sk_self (certificate_sk a) = eq_refl a
same_sk_self revocation_type = refl
same_sk_self token_type = refl
same_sk_self cache_type = refl

pub same_key_self : (k : Key) → same_key k k ≡ true
same_key_self k = ground (arith, same_pk_self k.pk, same_sk_self k.sk)

pub same_key→eq : (a b : Key) → same_key a b ≡ true → a ≡ b
same_key→eq a b h = ground (arith, same_pk→eq a.pk b.pk, same_sk→eq a.sk b.sk)
