-- ===== src/Client/Config.antt =====
-- ayane-cli/src/cmd/renew.rs: the loop's configuration, from the command line (`RenewLoop::new`).
use ayane.Base.{ℕ, String, Bool, true, Option, none, some, unwrap_or, ◌≤◌, ◌≡◌, subst}
use ayane.Error.{
  Result, ok, err, bad_request, ◌>>=◌, ◌>>◌, ok_or, guard, >>=-eq-ok, guard-eq-ok, ok-injective,
}
use ayane.Time.{Duration, SystemTime}
use ayane.Client.Schedule.{LoopConfig, next_renewal}
use ayane.Client.Waiting.{IsFraction, next_renewal_bounds}

-- the numbers of type f64, and humantime's durations
pub record Numbers : Type 1 where
  pub F64 : Type 0
  pub fraction_default : F64
  pub is_between : F64 → Bool
  pub mul_f64 : F64 → Duration → Duration
  pub parse_duration : String → Option Duration

module _ (N : Numbers) where
  pub record RenewArgs : Type 0 where
    pub cert : String
    pub out : Option String
    pub renew_fraction : Option N.F64
    pub renew_before : Option String
    pub jitter : String
    pub max_sleep : String
    pub exec : Option String

  abbrev parse : String → Result Duration
  parse text = ok_or (N.parse_duration text) (bad_request "duration")

  unfoldable pub fraction_of : Option N.F64 → Option String → Result N.F64
  fraction_of (some f) (some before) =
      err (bad_request "--renew-fraction and --renew-before are mutually exclusive")
  fraction_of (some f) none = ok f
  fraction_of none before = ok N.fraction_default

  unfoldable pub before_of : Option String → Result (Option Duration)
  before_of none = ok none
  before_of (some text) = elim (N.parse_duration text) [
    | some d ↦ ok (some d)
    | none ↦ err (bad_request "duration")
  ]

  -- The loop's configuration; every failure ends the command.
  unfoldable pub loop_config : RenewArgs → Result LoopConfig
  loop_config args = do
    fraction ← fraction_of args.renew_fraction args.renew_before
    guard (N.is_between fraction)
        (bad_request "--renew-fraction must be between 0 and 1 (exclusive)")
    before ← before_of args.renew_before
    jitter ← parse args.jitter
    max_sleep ← parse args.max_sleep
    ok (record {
      mul_fraction = N.mul_f64 fraction;
      renew_before = before;
      jitter = jitter;
      max_sleep = max_sleep;
      exec = args.exec;
      out = unwrap_or args.out args.cert;
    })

  -- A product by a number between 0 and 1 is not larger.
  abbrev pub IsShrinking : Type 0
  IsShrinking = (f : N.F64) (d : Duration) → N.is_between f ≡ true → N.mul_f64 f d ≤ d

  loop_config-IsFraction :
      (args : RenewArgs) (cfg : LoopConfig)
      → IsShrinking
      → loop_config args ≡ ok cfg
      → IsFraction cfg
  unfolding loop_config
  loop_config-IsFraction args cfg shrinking h =
      let (f, hf, h1) = >>=-eq-ok (fraction_of args.renew_fraction args.renew_before) _ h in
      let (u, hu, h2) = >>=-eq-ok (guard (N.is_between f) _) _ h1 in
      let (before, hb, h3) = >>=-eq-ok (before_of args.renew_before) _ h2 in
      let (jitter, hj, h4) = >>=-eq-ok (parse args.jitter) _ h3 in
      let (max_sleep, hm, h5) = >>=-eq-ok (parse args.max_sleep) _ h4 in
      subst IsFraction (ok-injective h5) (λ d. shrinking f d (guard-eq-ok _ _ hu))

  -- With any configuration that the command line gives, a renewal is due within the certificate's
  -- window, whatever the jitter is.
  pub loop_config_schedule :
      (args : RenewArgs) (cfg : LoopConfig) (not_before not_after : SystemTime) (jitter : ℕ)
      → IsShrinking
      → loop_config args ≡ ok cfg
      → not_before ≤ not_after
      → (not_before ≤ next_renewal not_before not_after cfg jitter)
        × (next_renewal not_before not_after cfg jitter ≤ not_after)
  loop_config_schedule args cfg not_before not_after jitter shrinking h le =
      next_renewal_bounds not_before not_after cfg jitter
        (loop_config-IsFraction args cfg shrinking h) le
