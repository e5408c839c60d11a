-- ===== src/Tests/Hooks.antt =====
-- The hooks' theorems at concrete requests.
use ayane.Base.{
  String, ◌≡◌, ◌↔◌, ◌⊎◌, refl, true, false, Option, none, some, List, [], ◌∷◌, All, Any,
}
use ayane.Error.{ok}
use ayane.San.{San, dns}
use ayane.Time.{unix_epoch}
use ayane.Hook.{
  HookProvider, HookResponse, Context, Customization, sign, run, request_of, applies_to, consult,
  consult_one, apply_response, push_extensions, push_claims, unauthorized_guard, add_sans, baseline,
}
use ayane.Hook.Authorize.{Permits, Grants, run_iff}
use ayane.Hook.Outcome.{KeepsRenewable, all_claims, run_outcome}

abbrev answer : HookResponse
answer = record {
  allow = some true;
  renew = some false;
  deny_reason = none;
  subject_common_name = none;
  sans = none;
  additional_sans = dns "b.example" ∷ [];
  not_before = none;
  not_after = none;
  key_usage = none;
  extended_key_usage = none;
  additional_extensions = [];
  once = record { scope = "instance-7"; expires_at = none } ∷ [];
}

abbrev policy : HookProvider
policy = record { name = "policy"; provisioners = "ci" ∷ []; call = λ request. ok answer }

abbrev ctx : Context
ctx = record {
  operation = sign;
  authorized = false;
  provisioner = some "ci";
  subject = "a.example";
  sans = dns "a.example" ∷ [];
  not_before = unix_epoch;
  not_after = unix_epoch;
  csr_der = none;
  previous_certificate_der = none;
  renewable = true;
}

abbrev parse : String → Option String
parse oid = some oid

abbrev outcome : Customization
outcome = record {
  subject_common_name = none;
  sans = dns "a.example" ∷ dns "b.example" ∷ [];
  not_before = unix_epoch;
  not_after = unix_epoch;
  key_usage = none;
  extended_key_usage = none;
  additional_extensions = [];
  once_claims = record { namespace = "hook:policy"; value = "instance-7"; expires_at = none } ∷ [];
  renewable = false;
}

abbrev hooks : List HookProvider
hooks = policy ∷ []

run_policy : run parse unix_epoch hooks ctx ≡ ok outcome
unfolding run consult consult_one apply_response push_extensions push_claims unauthorized_guard
    add_sans baseline applies_to ayane.Error.◌>>=◌ ayane.San.same_san ayane.San.contains
run_policy = refl

run_iff_example : ((c : Customization) × (run parse unix_epoch hooks ctx ≡ ok c)) ↔ (
    All (Permits parse ctx (request_of unix_epoch ctx)) hooks
    × ((ctx.authorized ≡ true) ⊎ Any (Grants parse ctx (request_of unix_epoch ctx)) hooks))
run_iff_example = run_iff parse unix_epoch hooks ctx

run_outcome_example :
    ((outcome.renewable ≡ true)
      ↔ ((ctx.renewable ≡ true) × All (KeepsRenewable parse ctx (request_of unix_epoch ctx)) hooks))
    × (outcome.once_claims ≡ all_claims parse ctx (request_of unix_epoch ctx) hooks)
run_outcome_example = run_outcome parse unix_epoch hooks ctx outcome run_policy
