-- ===== src/Tests/Renewals.antt =====
-- The theorems on the client's renewal loop, at a loop that fails once and then renews.
use ayane.Base.{
  ℕ, ◌+◌, ◌-◌, ◌*◌, ◌/◌, ◌≤◌, ◌≡◌, ◌≢◌, min, refl, Bool, true, false, none, some, [], ◌∷◌, arith,
}
use ayane.Error.{ok, ◌>>=◌}
use ayane.Time.{SystemTime, Duration, unix_epoch, from_secs}
use ayane.Client.Request.{Bodies, Response, with_body, unreachable, is_transient, status}
use ayane.Client.Schedule.{LoopConfig, Backoff, reset, ceiling, next_renewal}
use ayane.Client.Config.{
  Numbers, RenewArgs, IsShrinking, loop_config, fraction_of, before_of, loop_config_schedule,
}
use ayane.Client.Renewal.{
  RenewLoop, World, Nap, Loaded, wait_until, sleep, elapsed, wait_backoff, run, Report, rejected,
  fail, sighup,
}
use ayane.Client.Waiting.{wait_ends, wait_due, first_nap}
use ayane.Client.Backoff.{wait_backoff_bounds}
use ayane.Client.Loop.{IsTerminal, is_hooked, run_fails, run-is_hooked}
use ayane.Client.Request
use ayane.Client.Schedule
use ayane.Client.Renewal

abbrev noon : SystemTime
noon = unix_epoch + from_secs 1000

-- a half and three quarters
abbrev share : Bool → Duration → Duration
share true d = d / 2
share false d = d * 3 / 4

abbrev always : Bool → Bool
always f = true

abbrev numbers : Numbers
numbers = record {
  F64 = Bool;
  fraction_default = false;
  is_between = always;
  mul_f64 = share;
  parse_duration = λ text. some (from_secs 300);
}

abbrev args : RenewArgs numbers
args = record {
  cert = "cert.pem";
  out = none;
  renew_fraction = some true;
  renew_before = none;
  jitter = "5m";
  max_sleep = "5m";
  exec = some "reload";
}

numbers-IsShrinking : IsShrinking numbers
numbers-IsShrinking true d h = omega arith
numbers-IsShrinking false d h = omega arith

abbrev cfg : LoopConfig
cfg = record {
  mul_fraction = λ d. share true d;
  renew_before = none;
  jitter = from_secs 300;
  max_sleep = from_secs 300;
  exec = some "reload";
  out = "cert.pem";
}

configured : loop_config numbers args ≡ ok cfg
unfolding loop_config fraction_of before_of ◌>>=◌
configured = refl

loop_config_schedule_example :
    (noon ≤ next_renewal noon (noon + from_secs 900) cfg 20)
    × (next_renewal noon (noon + from_secs 900) cfg 20 ≤ noon + from_secs 900)
loop_config_schedule_example =
    loop_config_schedule numbers args cfg noon (noon + from_secs 900) 20 numbers-IsShrinking
      configured (omega arith)

abbrev world : World
world = record {
  clock = noon;
  naps = record { signal = none; lag = 0 } ∷ record { signal = none; lag = 0 } ∷ [];
  draws = 3 ∷ [];
  files = [];
  proofs = true ∷ true ∷ true ∷ [];
  responses = [];
  disk = true ∷ [];
  log = [];
}

-- three sleeps of five minutes at most
wait_ends_example : (wait_until 3 (from_secs 300) (noon + from_secs 500) world).0 ≢ none
wait_ends_example =
    wait_ends 2 (from_secs 300) (noon + from_secs 500) world (omega arith) (omega arith)

waited : (wait_until 3 (from_secs 300) (noon + from_secs 500) world).0 ≡ some elapsed
unfolding wait_until sleep
waited = refl

wait_due_example :
    noon + from_secs 500 ≤ (wait_until 3 (from_secs 300) (noon + from_secs 500) world).1.clock
wait_due_example = wait_due 3 (from_secs 300) (noon + from_secs 500) world waited

abbrev gen_range : ℕ → ℕ → ℕ
gen_range = min

abbrev bodies : Bodies
bodies = record {
  problem_from_slice = λ bytes. none;
  certificate_from_slice = λ bytes.
      some (record { certificate = "pem"; chain = []; serial_number = []; not_after = "" });
  from_utf8_lossy = λ bytes. "";
}

abbrev loaded : Loaded
loaded = record {
  cert_pem = "old";
  key = "key";
  not_before = noon - from_secs 900;
  not_after = noon;
}

-- A renewal that is due, and a refusal.
abbrev begun : RenewLoop
begun = record {
  cfg = cfg;
  backoff = reset;
  first = false;
  world = record world { files = some loaded ∷ []; responses = with_body 403 [] ∷ [] };
}

wait_backoff_bounds_example :
    ((wait_backoff gen_range begun).1.world.clock
      ≤ begun.world.clock + from_secs (ceiling begun.backoff) + (first_nap begun.world).lag)
    × (60 ≤ ceiling begun.backoff)
    × (ceiling begun.backoff ≤ 1_800)
    × (ceiling (wait_backoff gen_range begun).1.backoff ≡ min (2 * ceiling begun.backoff) 1_800)
wait_backoff_bounds_example = wait_backoff_bounds gen_range begun (λ d bound. omega arith)

refused : (run gen_range bodies 1 1 begun).0 ≡ some (fail (rejected (status 403 "")))
unfolding run Renewal.cycle Renewal.startup Renewal.wait_and_renew wait_until next_renewal
    Schedule.jitter_secs Schedule.base_time sleep Renewal.renew Renewal.post
    Request.deserialize_response_typed Request.message_of is_transient
refused = refl

run_fails_example : IsTerminal (rejected (status 403 ""))
run_fails_example = run_fails gen_range bodies 1 1 begun (rejected (status 403 "")) refl refused

run-is_hooked_example : is_hooked false (run gen_range bodies 1 1 begun).1.world.log ≡ true
unfolding is_hooked
run-is_hooked_example = run-is_hooked gen_range bodies 1 1 begun refl
