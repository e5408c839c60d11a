-- ===== src/Hook.antt =====
-- ayane/src/hook/mod.rs: consulting the issuance hooks. What a hook answers to a request is an
-- argument; `applies_to` is that of the three transports (hook/http.rs, hook/exec.rs, hook/lambda.rs),
-- which is the same.
pub mod Authorize
pub mod Outcome
use ayane.Base.{
  ℕ, String, Bool, true, false, not, ◌||◌, Option, none, some, List, [], ◌∷◌, ◌++◌, ◌==◌, any,
  unwrap_or, is_empty, if◌then◌else◌,
}
use Prim.Native.String
use ayane.Error.{Result, ok, err, ok_or, forbidden, bad_request, ◌>>=◌, ◌>>◌}
use ayane.Time.{SystemTime}
use ayane.San.{San, Bytes, contains}
use ayane.X509.{Extension}
use ayane.Template.{KeyUsageName, ExtKeyUsageName}

pub data Operation : Type 0 where
  sign renew rekey : Operation

pub record HookRequest : Type 0 where
  pub timestamp : SystemTime
  pub operation : Operation
  pub provisioner : Option String
  pub subject : String
  pub sans : List San
  pub csr_der : Option Bytes
  pub previous_certificate_der : Option Bytes
  pub not_before : SystemTime
  pub not_after : SystemTime
  pub renew : Bool

pub record RawExtension : Type 0 where
  pub oid : String
  pub value : Bytes
  pub critical : Bool

pub record OnceScope : Type 0 where
  pub scope : String
  pub expires_at : Option SystemTime

pub record OnceClaim : Type 0 where
  pub namespace : String
  pub value : String
  pub expires_at : Option SystemTime

pub record HookResponse : Type 0 where
  pub allow : Option Bool
  pub renew : Option Bool
  pub deny_reason : Option String
  pub subject_common_name : Option String
  pub sans : Option (List San)
  pub additional_sans : List San
  pub not_before : Option SystemTime
  pub not_after : Option SystemTime
  pub key_usage : Option (List KeyUsageName)
  pub extended_key_usage : Option (List ExtKeyUsageName)
  pub additional_extensions : List RawExtension
  pub once : List OnceScope

pub record HookProvider : Type 0 where
  pub name : String
  pub provisioners : List String
  pub call : HookRequest → Result HookResponse

unfoldable pub applies_to : HookProvider → Option String → Bool
applies_to hook provisioner =
    if is_empty hook.provisioners
    then true
    else elim provisioner [ some p ↦ any (λ name. name == p) hook.provisioners | none ↦ false ]

pub record Context : Type 0 where
  pub operation : Operation
  pub authorized : Bool
  pub provisioner : Option String
  pub subject : String
  pub sans : List San
  pub not_before : SystemTime
  pub not_after : SystemTime
  pub csr_der : Option Bytes
  pub previous_certificate_der : Option Bytes
  pub renewable : Bool

pub record Customization : Type 0 where
  pub subject_common_name : Option String
  pub sans : List San
  pub not_before : SystemTime
  pub not_after : SystemTime
  pub key_usage : Option (List KeyUsageName)
  pub extended_key_usage : Option (List ExtKeyUsageName)
  pub additional_extensions : List Extension
  pub once_claims : List OnceClaim
  pub renewable : Bool

-- `if let Some(a) = o { field = a }`
abbrev pub or_keep {ℓ} : {A : Type ℓ} → Option A → A → A
or_keep none old = old
or_keep (some a) old = a

-- `if let Some(a) = &o { field = Some(a.clone()) }`
abbrev pub or_keep_some {ℓ} : {A : Type ℓ} → Option A → Option A → Option A
or_keep_some none old = old
or_keep_some (some a) old = some a

abbrev pub is_false : Option Bool → Bool
is_false (some false) = true
is_false _ = false

abbrev pub is_true : Option Bool → Bool
is_true (some true) = true
is_true _ = false

-- the loop over `additional_sans`
unfoldable pub add_sans : List San → List San → List San
add_sans sans [] = sans
add_sans sans (san ∷ more) = add_sans (if contains sans san then sans else sans ++ san ∷ []) more

-- `oid.parse::<ObjectIdentifier>()` is an argument
unfoldable pub to_extension : (String → Option String) → RawExtension → Result Extension
to_extension parse_oid raw = do
  extn_id ← ok_or (parse_oid raw.oid) (bad_request "hook extension OID")
  ok (record { extn_id = extn_id; critical = raw.critical; extn_value = raw.value })

-- the loop over `additional_extensions`
unfoldable pub push_extensions :
    (String → Option String) → List Extension → List RawExtension → Result (List Extension)
push_extensions parse_oid exts [] = ok exts
push_extensions parse_oid exts (raw ∷ more) = do
  ext ← to_extension parse_oid raw
  push_extensions parse_oid (exts ++ ext ∷ []) more

unfoldable pub apply_response :
    (String → Option String) → Customization → HookResponse → Result Customization
apply_response parse_oid c response = do
  extensions ← push_extensions parse_oid c.additional_extensions response.additional_extensions
  ok (record c {
    renewable = if is_false response.renew then false else c.renewable;
    subject_common_name = or_keep_some response.subject_common_name c.subject_common_name;
    sans = add_sans (or_keep response.sans c.sans) response.additional_sans;
    not_before = or_keep response.not_before c.not_before;
    not_after = or_keep response.not_after c.not_after;
    key_usage = or_keep_some response.key_usage c.key_usage;
    extended_key_usage = or_keep_some response.extended_key_usage c.extended_key_usage;
    additional_extensions = extensions;
  })

unfoldable pub unauthorized_guard : Bool → Bool → Result (Unit {0})
unauthorized_guard authorized explicitly_allowed =
    if authorized || explicitly_allowed
    then ok tt
    else err (forbidden "issuance was not authorized by any hook")

-- the loop over `response.once`
unfoldable pub push_claims : String → List OnceClaim → List OnceScope → List OnceClaim
push_claims name claims [] = claims
push_claims name claims (scope ∷ more) =
    push_claims name
      (claims
        ++ (record {
          namespace = String.◌++◌ "hook:" name;
          value = scope.scope;
          expires_at = scope.expires_at;
        })
          ∷ [])
      more

module _ (parse_oid : String → Option String) (ctx : Context) (request : HookRequest) where
  -- the body of the loop of `run`: the customization so far, and whether a hook has allowed the
  -- request
  unfoldable pub consult_one : HookProvider → Customization → Bool → Result (Customization × Bool)
  consult_one hook c allowed =
      if applies_to hook ctx.provisioner
      then (do
        response ← hook.call request
        if is_false response.allow
            then err (forbidden (unwrap_or response.deny_reason "issuance denied by hook"))
            else do
              c' ←
                  apply_response parse_oid
                    (record c { once_claims = push_claims hook.name c.once_claims response.once })
                    response
              ok (c', if is_true response.allow then true else allowed))
      else ok (c, allowed)

  unfoldable pub consult : List HookProvider → Customization × Bool → Result (Customization × Bool)
  consult [] acc = ok acc
  consult (hook ∷ hooks) acc = do next ← consult_one hook acc.0 acc.1; consult hooks next

unfoldable pub baseline : Context → Customization
baseline ctx = record {
  subject_common_name = none;
  sans = ctx.sans;
  not_before = ctx.not_before;
  not_after = ctx.not_after;
  key_usage = none;
  extended_key_usage = none;
  additional_extensions = [];
  once_claims = [];
  renewable = ctx.renewable;
}

unfoldable pub request_of : SystemTime → Context → HookRequest
request_of now ctx = record {
  timestamp = now;
  operation = ctx.operation;
  provisioner = ctx.provisioner;
  subject = ctx.subject;
  sans = ctx.sans;
  csr_der = ctx.csr_der;
  previous_certificate_der = ctx.previous_certificate_der;
  not_before = ctx.not_before;
  not_after = ctx.not_after;
  renew = ctx.renewable;
}

unfoldable pub run :
    (String → Option String) → SystemTime → List HookProvider → Context → Result Customization
run parse_oid now hooks ctx =
    if is_empty hooks then (do unauthorized_guard ctx.authorized false; ok (baseline ctx)) else do
      (c, allowed) ← consult parse_oid ctx (request_of now ctx) hooks (baseline ctx, false)
      unauthorized_guard ctx.authorized allowed
      ok c
