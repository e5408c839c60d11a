-- ===== src/Tests/ServedRoots.antt =====
-- A client that fetches the roots from the server's endpoints.
use ayane.Base.{
  nat_eq, length, String, Option, false, eq_refl, ◌≡◌, ◌==◌, refl, if◌then◌else◌, none, some, List,
  [], ◌∷◌, arith,
}
use ayane.Error.{ok}
use ayane.Roots.Verify.{endpoint, Fetch, fetch_roots, resolve_same_origin}
use ayane.Roots.Accepted.{P}
use ayane.Service.Roots.{sig_params, url_of_chain, signed_roots, cache_get}
use ayane.Service.Roots.Answered.{Source}
use ayane.Http.{HttpTypes, HeaderMap, HttpResponse, roots, roots_signer_chain}
use ayane.Ca.Serial.{Text}
use ayane.Http.Served.{IsHttp, IsServedBy, reply_of, fetch_roots-served}
use ayane.Tests.Fixtures.{noon}
use ayane.Tests.Requests.{state}
use ayane.Tests.RootsResponses.{
  roots_signer, checks, encoding, signers, fresh, nothing_cached, unused,
}

-- what is inserted comes first, and hides what was there before
abbrev push : String → Text → HeaderMap → HeaderMap
push name value headers = (name, value) ∷ headers

unfoldable lookup : String → HeaderMap → Option Text
lookup name [] = none
lookup name (entry ∷ entries) =
    let rest = lookup name entries in if name == entry.0 then some entry.1 else rest

abbrev http : HttpTypes
http = record {
  header_name = λ name.
      if name == "content-type"
      then some "content-type"
      else if name == "Content-Digest"
      then some "content-digest"
      else if name == "Signature-Key"
      then some "signature-key"
      else if name == "Signature-Input"
      then some "signature-input"
      else if name == "Signature"
      then some "signature"
      else none;
  insert = push;
  get = lookup;
  is_visible_ascii = λ text. ayane.Base.true;
  problem_json = λ problem. [];
  hex_encode = λ bytes. bytes;
}

lookup-push :
    (name : String) (value : Text) (headers : HeaderMap)
    → lookup name (push name value headers) ≡ some value
unfolding lookup
lookup-push name value headers = rw (eq_refl name) refl

lookup-insert_ne :
    (name other : String) (value : Text) (headers : HeaderMap)
    → (name == other) ≡ false
    → lookup name (push other value headers) ≡ lookup name headers
unfolding lookup
lookup-insert_ne name other value headers apart = rw apart refl

names : IsHttp http
names = record {
  inserted = lookup-push;
  kept = lookup-insert_ne;
  content_type = refl;
  content_digest = refl;
  signature_key = refl;
  signature_input = refl;
  signature = refl;
}

unfoldable sent : (response : HttpResponse) × ((roots http roots_signer noon state).0 ≡ ok response)
unfolding roots ayane.Http.roots_response ayane.Http.set_header ayane.Error.◌>>=◌ signed_roots
    cache_get ayane.Service.Roots.decode_cached ayane.Service.Roots.usable
    ayane.Service.Roots.cached_or_signed ayane.Service.Roots.sign_roots
    ayane.Service.Roots.cache_set ayane.Action.◌>>=◌ ayane.Action.continue ayane.Action.lift
    ayane.Action.pure ayane.Storage.Sqlite.sqlite ayane.Storage.Sqlite.get_cache
    ayane.Storage.Sqlite.set_cache ayane.Storage.Sqlite.execute ayane.Storage.Sqlite.next_fault
    ayane.Storage.Sqlite.unix_secs
sent = (_, refl)

-- The roots are at a URL of nine characters, the chain at any other.
abbrev network : Fetch
network = record {
  get = λ url.
      if nat_eq (length url) 9
      then some (reply_of http sent.0)
      else some (reply_of http (roots_signer_chain http (8 ∷ [])));
  parse_url = λ url. some url;
  join = λ base reference. some reference;
  same_origin = λ a b. ayane.Base.true;
  certificates_from_slice = λ body. some ("pem" ∷ []);
}

served : IsServedBy http network [] (url_of_chain roots_signer) sent.0 (8 ∷ [])
unfolding endpoint ayane.Roots.Verify.trim_end_slashes ayane.Service.Revoke.chars
    ayane.Httpsig.signer_chain_path
served = record { first = refl; second = refl }

near :
    resolve_same_origin
      (P roots_signer checks)
      network
      (endpoint [] "/v1/roots")
      (url_of_chain roots_signer)
    ≡ ok (url_of_chain roots_signer)
unfolding resolve_same_origin ayane.Error.◌>>=◌ ayane.Roots.Verify.require
near = refl

fetch_roots-served_example :
    fetch_roots (P roots_signer checks) network [] [] 1_000_010 ≡ ok ("pem" ∷ [])
unfolding sig_params
fetch_roots-served_example =
    fetch_roots-served http roots_signer checks network [] (url_of_chain roots_signer) (8 ∷ []) []
      1_000_010 noon noon (7 ∷ []) none state sent.0 ("pem" ∷ []) names encoding signers fresh
      (omega arith) tt refl nothing_cached (Source.signed_now refl unused) sent.1 served near refl
