-- ===== src/Tests/RootsResponses.antt =====
-- A signed roots response, from the server's signature to the certificates that are printed.
use mathlib.Core.List.Memᴰ
use ayane.Base.{
  nat_eq, length, ◌≡◌, ◌↔◌, ℕ, zero, suc, refl, inr, true, false, none, some, [], ◌∷◌, arith, ◌==◌,
  if◌then◌else◌,
}
use ayane.Error.{ok, >>=-ok}
use ayane.Httpsig.KeyHeader.{parse-signature_key_x509}
use ayane.Time.{from_secs}
use ayane.San.{Bytes}
use ayane.Crypto.{ecdsa_sha256}
use ayane.X509.{Certificate, utc_time}
use ayane.Storage.{secs}
use ayane.Storage.Sqlite.{SqliteStorage, sqlite}
use ayane.Httpsig.{Base64, RootsSigParams, signature_input_value, parse_roots_sig_params}
use ayane.Httpsig.RoundTrip.{IsBase64, parse-signature_input_value}
use ayane.Roots.{Der, Node, new_nodes, anchor_signer}
use ayane.Roots.Path.{PathToAnchor}
use ayane.Roots.Anchored.{anchor_signer_iff}
use ayane.Roots.Verify.{Checks, Fetch, fetch_roots, verify_roots_response, parse_certificates}
use ayane.Roots.Trusted.{IsFresh}
use ayane.Roots.Fetched.{IsFetched, fetch_roots-IsFetched}
use ayane.Roots.Accepted.{IsEncoding, IsSigners, headers_of, signed_roots-verify}
use ayane.Service.Roots.{RootsSigner, SignedRoots, signed_roots, sig_params, usable, cache_get}
use ayane.Service.Roots.Answered.{Source}
use ayane.Tests.Fixtures.{noon, json, marked}
use ayane.Tests.Requests.{state}

-- The names' encodings tell the empty one apart, the certificates' are their serial numbers.
abbrev der : Der
der = record {
  name_to_der = λ name. elim name [ [] ↦ some (1 ∷ []) | _ ∷ _ ↦ some (2 ∷ []) ];
  spki_to_der = λ key. some key.subject_public_key;
  to_der = λ cert. some cert.tbs_certificate.serial_number;
  verify_x509_signature = λ cert key. true;
  basic_constraints_oid = "2.5.29.19";
  ca_of_basic_constraints = λ bytes. some true;
}

abbrev root : Certificate
root = record marked { tbs_certificate = record marked.tbs_certificate { serial_number = 1 ∷ [] } }

-- the server's certificate, under the root
abbrev leaf : Certificate
leaf = record marked {
  tbs_certificate = record marked.tbs_certificate {
    serial_number = 5 ∷ [];
    subject = [] ∷ [];
    validity = record { not_before = utc_time 0; not_after = utc_time 2_000_000 };
  };
}

abbrev root_node : Node
root_node = record {
  cert = root;
  subject = 1 ∷ [];
  issuer = 1 ∷ [];
  spki = 4 ∷ 2 ∷ [];
  der = 1 ∷ [];
  not_before = 0;
  not_after = 86_400;
  is_ca = false;
  place = 0;
}

abbrev leaf_node : Node
leaf_node = record {
  cert = leaf;
  subject = 2 ∷ [];
  issuer = 1 ∷ [];
  spki = 4 ∷ 2 ∷ [];
  der = 5 ∷ [];
  not_before = 0;
  not_after = 2_000_000;
  is_ca = false;
  place = 0;
}

bag : new_nodes der 0 (leaf ∷ []) ≡ ok (leaf_node ∷ [])
unfolding new_nodes ayane.Roots.new_node ayane.Roots.is_ca ayane.Roots.is_ca_of ayane.Error.◌>>=◌
bag = refl

bundle : new_nodes der 0 (root ∷ []) ≡ ok (root_node ∷ [])
unfolding new_nodes ayane.Roots.new_node ayane.Roots.is_ca ayane.Roots.is_ca_of ayane.Error.◌>>=◌
bundle = refl

path : PathToAnchor der (leaf_node ∷ []) (root_node ∷ []) 1_000_010 9 leaf_node
unfolding ayane.Roots.temporally_valid
path =
    PathToAnchor.pinned (record { present = Memᴰ.head refl; subject = refl; spki = refl }) refl
      (record {
        anchor = root_node;
        present = Memᴰ.head refl;
        how = inr (record { named = refl; signed = refl });
      })

anchor_signer_iff_example :
    (anchor_signer der (leaf ∷ []) (root ∷ []) 1_000_010 ≡ ok tt)
    ↔ PathToAnchor der (leaf_node ∷ []) (root_node ∷ []) 1_000_010 9 leaf_node
anchor_signer_iff_example =
    anchor_signer_iff der (leaf ∷ []) (root ∷ []) 1_000_010 leaf_node [] (root_node ∷ []) bag bundle

abbrev base64 : Base64
base64 = record { encode = λ b. b; decode = λ t. some t; encode_url = λ b. [] }

abbrev zeros : ℕ → Bytes
zeros zero = []
zeros (suc n) = 0 ∷ zeros n

abbrev pub roots_signer : RootsSigner SqliteStorage
roots_signer = record {
  storage = sqlite json;
  roots_pem = "pem" ∷ [];
  roots_to_vec = λ pems. some (7 ∷ []);
  cached_to_vec = λ cached. some [];
  cached_from_slice = λ bytes. none;
  base64 = base64;
  sha384 = λ bytes. zeros 48;
  hex_encode = λ bytes. "00";
  as_bytes = λ text. text;
  signer_leaf_sha256 = 3 ∷ [];
  signing_algorithm = ecdsa_sha256;
  sign_http_message = λ message. ok (1 ∷ 2 ∷ []);
  roots_signature_ttl = from_secs 86_400;
  external_url = none;
}

abbrev pub checks : Checks
checks = record {
  der = der;
  base64 = base64;
  sha256 = λ bytes. 3 ∷ [];
  sha384 = λ bytes. zeros 48;
  parse_many = λ pem. some (("CERTIFICATE", pem) ∷ []);
  from_der = λ bytes. elim bytes [ [] ↦ some root | _ ∷ _ ↦ some leaf ];
  as_bytes = λ text. text;
  verify_rfc9421_signature = λ alg key message signature. true;
}

base64-IsBase64 : IsBase64 base64
base64-IsBase64 = record { decode-encode = λ b. refl; unquoted = λ b. tt }

pub encoding : IsEncoding roots_signer
encoding = record { laws = base64-IsBase64; size = λ b. refl }

pub signers : IsSigners roots_signer checks (8 ∷ []) [] 1_000_010
unfolding parse_certificates ayane.Roots.Verify.certificates_of ayane.Error.◌>>=◌
signers = record {
  leaf = leaf;
  more = [];
  chain = refl;
  leaf_der = 5 ∷ [];
  encoded = refl;
  thumbprint = refl;
  spki = 4 ∷ 2 ∷ [];
  keyed = refl;
  valid = λ message signature h. refl;
  known = root ∷ [];
  bundle = refl;
  pinned = refl;
  anchored = record {
    signer = leaf_node;
    rest = [];
    bag = bag;
    anchors = root_node ∷ [];
    pinned = bundle;
    path = path;
  };
}

pub fresh : IsFresh (sig_params roots_signer noon) 1_000_010
unfolding sig_params
fresh = record {
  lasts = omega arith;
  bounded = omega arith;
  before = omega arith;
  later = omega arith;
}

unfoldable pub answered : (out : SignedRoots) × ((signed_roots roots_signer noon state).0 ≡ ok out)
unfolding signed_roots cache_get ayane.Service.Roots.decode_cached usable
    ayane.Service.Roots.cached_or_signed ayane.Service.Roots.sign_roots
    ayane.Service.Roots.cache_set ayane.Action.◌>>=◌ ayane.Action.continue ayane.Action.lift
    ayane.Action.pure ayane.Storage.Sqlite.sqlite ayane.Storage.Sqlite.get_cache
    ayane.Storage.Sqlite.set_cache ayane.Storage.Sqlite.execute ayane.Storage.Sqlite.next_fault
    ayane.Storage.Sqlite.unix_secs
answered = (_, refl)

pub nothing_cached : (cache_get roots_signer noon "roots-sig:v1:00" state).0 ≡ ok none
unfolding cache_get ayane.Service.Roots.decode_cached ayane.Action.◌>>=◌ ayane.Action.continue
    ayane.Action.lift ayane.Storage.Sqlite.sqlite ayane.Storage.Sqlite.get_cache
    ayane.Storage.Sqlite.execute ayane.Storage.Sqlite.next_fault ayane.Storage.Sqlite.unix_secs
nothing_cached = refl

pub unused : usable roots_signer (secs noon) none ≡ none
unfolding usable
unused = refl

abbrev params : RootsSigParams
params = record { created = 1_718_360_000; expires = 1_718_363_600; alg = 114 ∷ 115 ∷ 97 ∷ [] }

parse-signature_input_value_example :
    parse_roots_sig_params (signature_input_value params) ≡ ok params
parse-signature_input_value_example =
    parse-signature_input_value params (omega arith) (omega arith) (refl, (refl, (refl, tt)))

-- A server that answers with what was signed, and its chain at any other URL.
abbrev network : Fetch
network = record {
  get = λ url.
      if nat_eq (length url) 9
      then some (record {
        status = 200;
        headers = λ name.
            if name == "Content-Digest"
            then some answered.0.content_digest
            else if name == "Signature-Input"
            then some answered.0.signature_input
            else if name == "Signature"
            then some answered.0.signature
            else some answered.0.signature_key;
        body = 7 ∷ [];
      })
      else some (record { status = 200; headers = λ name. none; body = 8 ∷ [] });
  parse_url = λ url. some url;
  join = λ base reference. some reference;
  same_origin = λ a b. true;
  certificates_from_slice = λ body. some ("pem" ∷ []);
}

accepted :
    verify_roots_response checks (7 ∷ []) (headers_of answered.0) (8 ∷ []) [] 1_000_010 ≡ ok tt
unfolding sig_params answered
accepted =
    signed_roots-verify roots_signer checks (8 ∷ []) [] 1_000_010 noon noon (7 ∷ []) none state
      answered.0 encoding signers fresh (omega arith) tt refl nothing_cached
      (Source.signed_now refl unused) answered.1

fetched : fetch_roots checks network [] [] 1_000_010 ≡ ok ("pem" ∷ [])
unfolding fetch_roots answered ayane.Roots.Verify.extract_headers ayane.Roots.Verify.header
    ayane.Roots.Verify.require ayane.Roots.Verify.resolve_same_origin ayane.Error.◌>>=◌
    ayane.Httpsig.x5t_from_digest ayane.Httpsig.signer_chain_path ayane.Roots.Verify.endpoint
    ayane.Roots.Verify.trim_end_slashes ayane.Service.Revoke.chars
fetched = rw (fetch_roots, parse-signature_key_x509 [] [] tt tt) (rw accepted refl)

fetch_roots-IsFetched_example : IsFetched checks network [] [] 1_000_010 ("pem" ∷ [])
fetch_roots-IsFetched_example =
    fetch_roots-IsFetched checks network [] [] 1_000_010 ("pem" ∷ []) fetched
