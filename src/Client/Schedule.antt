-- ===== src/Client/Schedule.antt =====
-- ayane-cli/src/cmd/renew.rs: the schedule of renewals, and the backoff.
use ayane.Base.{
  ℕ, ◌+◌, ◌*◌, ◌^◌, min, max, String, Option, none, some, nat_eq, if◌then◌else◌, unwrap_or,
}
use ayane.Time.{SystemTime, Duration, checked_sub, duration_since, from_secs, as_secs}

-- `mul_f64` by the configured fraction is a function that the configuration carries.
pub record LoopConfig : Type 0 where
  pub mul_fraction : Duration → Duration
  pub renew_before : Option Duration
  pub jitter : Duration
  pub max_sleep : Duration
  pub exec : Option String
  pub out : String

unfoldable pub base_time : SystemTime → SystemTime → LoopConfig → SystemTime
base_time not_before not_after cfg = elim cfg.renew_before [
  | some before ↦ unwrap_or (checked_sub not_after before) not_before
  | none ↦ not_before + cfg.mul_fraction (unwrap_or (duration_since not_after not_before) 0)
]

unfoldable pub next_renewal : SystemTime → SystemTime → LoopConfig → ℕ → SystemTime
next_renewal not_before not_after cfg jitter =
    max (unwrap_or (checked_sub (base_time not_before not_after cfg) (from_secs jitter)) not_before)
      not_before

-- `gen_range(0..=max)`, from what the generator has drawn
abbrev pub GenRange : Type 0
GenRange = ℕ → ℕ → ℕ

unfoldable pub jitter_secs : GenRange → ℕ → Duration → ℕ
jitter_secs gen_range draw bound =
    if nat_eq (as_secs bound) 0 then 0 else gen_range draw (as_secs bound)

pub record Backoff : Type 0 where
  pub n : ℕ

abbrev pub base_secs : ℕ
base_secs = 60

abbrev pub cap_secs : ℕ
cap_secs = 1_800

-- `Backoff::default`, and what `reset` leaves
abbrev pub reset : Backoff
reset = record { n = 0 }

-- a product of u64 that stays at the largest one
abbrev pub saturating_mul : ℕ → ℕ → ℕ
saturating_mul a b = min (a * b) 18_446_744_073_709_551_615

unfoldable pub ceiling : Backoff → ℕ
ceiling b = min (saturating_mul base_secs (2 ^ min b.n 5)) cap_secs

unfoldable pub advance : Backoff → Backoff
advance b = record { n = min (b.n + 1) 6 }
