-- ===== src/Roots.antt =====
-- ayane-cli/src/httpsig.rs: the path search from the signer of a roots response to the pinned
-- bundle.
--
-- The encoders and decoders of der and of x509_cert are the fields of `Der`; the check of a
-- certificate's signature under a key is one of them too. A node carries its position in the bag,
-- which stands for its address. An error of anyhow, a text alone, is here an `internal` one.
pub mod Path
pub mod Lists
pub mod Loops
pub mod Search
pub mod Twins
pub mod Exact
pub mod Anchored
pub mod Verify
pub mod Trusted
pub mod Fetched
pub mod Accepted
use mathlib.Core.List.{Memᴰ}
use ayane.Base.{
  ℕ, zero, suc, String, Bool, true, false, not, ◌&&◌, ◌==◌, leb, nat_eq, any, retain, Option, none,
  some, unwrap_or, List, [], ◌∷◌, if◌then◌else◌,
}
use ayane.Error.{Error, Result, ok, err, ok_or, internal, ◌>>=◌}
use ayane.San.{Bytes, same_bytes}
use ayane.X509.{
  Certificate, Name, PublicKey, Extension, TbsCertificate, X509Time, utc_time, general_time,
}

pub record Der : Type 0 where
  pub name_to_der : Name → Option Bytes
  pub spki_to_der : PublicKey → Option Bytes
  pub to_der : Certificate → Option Bytes
  -- the certificate's signature under a key
  pub verify_x509_signature : Certificate → Bytes → Bool
  pub basic_constraints_oid : String
  pub ca_of_basic_constraints : Bytes → Option Bool

abbrev pub bail {ℓ} : {A : Type ℓ} → String → Result A
bail msg = err (internal msg)

abbrev pub unix_duration : X509Time → ℕ
unix_duration (utc_time n) = n
unix_duration (general_time n) = n

pub record Node : Type 0 where
  pub cert : Certificate
  pub subject : Bytes
  pub issuer : Bytes
  pub spki : Bytes
  pub der : Bytes
  pub not_before : ℕ
  pub not_after : ℕ
  pub is_ca : Bool
  pub place : ℕ

-- `MAX_PATH_DEPTH`
abbrev pub max_path_depth : ℕ
max_path_depth = 8

unfoldable pub temporally_valid : ℕ → Node → Bool
temporally_valid now n = leb n.not_before n.not_after && leb n.not_before now && leb now n.not_after

-- subject, key and issuer
pub record Edge : Type 0 where
  pub subject : Bytes
  pub spki : Bytes
  pub issuer : Bytes

abbrev pub edge_of : Node → Edge
edge_of t = record { subject = t.subject; spki = t.spki; issuer = t.issuer }

abbrev pub same_edge : Edge → Edge → Bool
same_edge a b =
    same_bytes a.subject b.subject && same_bytes a.spki b.spki && same_bytes a.issuer b.issuer

-- `visited`, the last one that was pushed first
abbrev pub Visited : Type 0
Visited = List Edge

unfoldable pub pop : Visited → Visited
pop [] = []
pop (e ∷ es) = es

-- whether the search from a node succeeds, and what it leaves visited
abbrev pub Search : Type 0
Search = Visited → Bool × Visited

-- `return true` where a search succeeds, or else what comes after it
unfoldable pub or_else : Bool × Visited → Search → Bool × Visited
or_else (true, visited) next = (true, visited)
or_else (false, visited) next = next visited

module _ (D : Der) where
  unfoldable pub is_ca_of : List Extension → Bool
  is_ca_of [] = false
  is_ca_of (ext ∷ exts) =
      let rest = is_ca_of exts in
      if ext.extn_id == D.basic_constraints_oid
      then unwrap_or (D.ca_of_basic_constraints ext.extn_value) false
      else rest

  unfoldable pub is_ca : Certificate → Bool
  is_ca cert = elim cert.tbs_certificate.extensions [ none ↦ false | some exts ↦ is_ca_of exts ]

  unfoldable pub new_node : ℕ → Certificate → Result Node
  new_node place cert = do
    subject ← ok_or (D.name_to_der cert.tbs_certificate.subject) (internal "der")
    issuer ← ok_or (D.name_to_der cert.tbs_certificate.issuer) (internal "der")
    spki ← ok_or (D.spki_to_der cert.tbs_certificate.subject_public_key_info) (internal "der")
    der ← ok_or (D.to_der cert) (internal "der")
    ok (record {
      cert = cert;
      subject = subject;
      issuer = issuer;
      spki = spki;
      der = der;
      not_before = unix_duration cert.tbs_certificate.validity.not_before;
      not_after = unix_duration cert.tbs_certificate.validity.not_after;
      is_ca = is_ca cert;
      place = place;
    })

  unfoldable pub new_nodes : ℕ → List Certificate → Result (List Node)
  new_nodes place [] = ok []
  new_nodes place (cert ∷ certs) = do
    node ← new_node place cert
    nodes ← new_nodes (suc place) certs
    ok (node ∷ nodes)

  abbrev pub issued_by : Node → Node → Bool
  issued_by t n = same_bytes n.subject t.issuer && D.verify_x509_signature t.cert n.spki

  module _ (bag anchors : List Node) (now : ℕ) where
    unfoldable pub is_twin : Node → Node → Bool
    is_twin cert n =
        not (nat_eq n.place cert.place)
        && same_bytes n.subject cert.subject
        && same_bytes n.spki cert.spki

    unfoldable pub twins_of : Node → List Node
    twins_of cert = cert ∷ retain (is_twin cert) bag

    unfoldable pub issuers_of : Node → List Node
    issuers_of t = retain (λ n. n.is_ca && issued_by t n) bag

    unfoldable pub is_anchored : Node → Bool
    is_anchored t =
        if any (λ a. same_bytes a.der t.der) anchors then true else any (λ a. issued_by t a) anchors

    -- `for issuer in …`
    unfoldable pub climb : (Node → Search) → List Node → Search
    climb go [] visited = (false, visited)
    climb go (n ∷ ns) visited = or_else (go n visited) (climb go ns)

    -- `for t in twins`
    unfoldable pub try_twins : (Node → Search) → List Node → Search
    try_twins go [] visited = (false, visited)
    try_twins go (t ∷ ts) visited =
        let next = try_twins go ts in
        if not (temporally_valid now t)
        then next visited
        else if any (same_edge (edge_of t)) visited
        then next visited
        else if is_anchored t
        then (true, visited)
        else or_else (climb go (issuers_of t) (edge_of t ∷ visited))
            (λ visited'. next (pop visited'))

    -- The first argument is how many depths are left, up to the largest.
    unfoldable pub reaches_anchor : ℕ → Node → Search
    reaches_anchor zero cert visited = (false, visited)
    reaches_anchor (suc left) cert visited = try_twins (reaches_anchor left) (twins_of cert) visited

  unfoldable pub anchor_from : List Node → List Node → ℕ → Result (Unit {0})
  anchor_from [] anchors now = bail "signer chain is empty"
  anchor_from (signer ∷ bag) anchors now =
      if (reaches_anchor (signer ∷ bag) anchors now (suc max_path_depth) signer []).0
      then ok tt
      else bail "signer chain does not anchor to the pinned root bundle"

  -- An empty chain, on which the source's `bag[0]` would panic, is ruled out by its caller.
  unfoldable pub anchor_signer : List Certificate → List Certificate → ℕ → Result (Unit {0})
  anchor_signer chain known now = do
    bag ← new_nodes 0 chain
    anchors ← new_nodes 0 known
    anchor_from bag anchors now
