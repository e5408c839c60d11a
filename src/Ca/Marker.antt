-- ===== src/Ca/Marker.antt =====
-- The non-renewable marker in an extension list.
use ayane.Base.{
  String, ◌≡◌, ◌≢◌, Bool, true, false, not, Option, none, some, List, [], ◌∷◌, ◌==◌, eq_iff, arith,
  retain, if◌then◌else◌,
}
use ayane.X509.{Extension, Formats, non_renewable_oid, non_renewable_extension, is_marked}
use ayane.Template.Extensions.{
  get, Unique, get-append, get-retain, Unique-retain, Unique-snoc, retain_ne,
}
use ayane.Ca.{set_non_renewable_marker}

-- What the program relies on of the encoders: the identifiers of the key extensions differ from
-- one another and from the marker's, and FALSE decodes to itself.
pub record IsCoherent (F : Formats) : Type 0 where
  pub ski_aki : F.subject_key_identifier_oid ≢ F.authority_key_identifier_oid
  pub marker_ski : non_renewable_oid ≢ F.subject_key_identifier_oid
  pub marker_aki : non_renewable_oid ≢ F.authority_key_identifier_oid
  pub false_decodes : F.bool_from_der (F.bool_to_der false) ≡ some false

module _ (F : Formats) where
  abbrev pub marker_of : Bool → Option Extension
  marker_of renewable = if renewable then none else some (non_renewable_extension F)

  pub get-set_marker :
      (exts : List Extension) (r : Bool)
      → get non_renewable_oid (set_non_renewable_marker F exts r) ≡ marker_of r
  unfolding set_non_renewable_marker non_renewable_extension
  get-set_marker exts true = get-retain non_renewable_oid non_renewable_oid exts
  get-set_marker exts false = rw (
    get-append non_renewable_oid (retain (λ e. not (e.extn_id == non_renewable_oid)) exts)
        (non_renewable_extension F ∷ []),
    get-retain non_renewable_oid non_renewable_oid exts,
  )

  pub get-set_marker_ne :
      (id : String) (exts : List Extension) (r : Bool)
      → non_renewable_oid ≢ id
      → get id (set_non_renewable_marker F exts r) ≡ get id exts
  unfolding set_non_renewable_marker non_renewable_extension
  get-set_marker_ne id exts true n =
      rw (get-retain id non_renewable_oid exts) (ground (arith, eq_iff id non_renewable_oid))
  get-set_marker_ne id exts false n =
      rw
        (
          get-append id (retain (λ e. not (e.extn_id == non_renewable_oid)) exts)
              (non_renewable_extension F ∷ []),
          get-retain id non_renewable_oid exts,
        )
        (ground (arith, eq_iff id non_renewable_oid, eq_iff non_renewable_oid id))

  pub set_marker-Unique :
      (exts : List Extension) (r : Bool) → Unique exts → Unique (set_non_renewable_marker F exts r)
  unfolding set_non_renewable_marker non_renewable_extension
  set_marker-Unique exts true u = Unique-retain _ exts u
  set_marker-Unique exts false u =
      Unique-snoc (retain (λ e. not (e.extn_id == non_renewable_oid)) exts)
        (non_renewable_extension F) (retain_ne non_renewable_oid exts) (Unique-retain _ exts u)

  -- A list with the marker as decided is marked exactly when it is not renewable.
  pub is_marked_of_get :
      IsCoherent F
      → (exts : List Extension) (r : Bool) → get non_renewable_oid exts ≡ marker_of r
      → is_marked F exts ≡ not r
  unfolding is_marked non_renewable_extension
  is_marked_of_get c exts true e = ground (arith, e)
  is_marked_of_get c exts false e = ground (arith, e, c.false_decodes)
