-- ===== src/Client/Backoff.antt =====
-- ayane-cli/src/cmd/renew.rs: how long the loop backs off.
use ayane.Base.{
  ℕ, zero, suc, ◌+◌, ◌*◌, ◌≤◌, ◌≡◌, min, inl, inr, refl, arith, Bool-cases, Option-cases, ltb,
}
use ayane.Time.{Duration, from_secs, as_secs}
use ayane.Client.Schedule.{GenRange, Backoff, jitter_secs, ceiling, advance}
use ayane.Client.Renewal.{World, RenewLoop, sleep, next, wait_backoff}
use ayane.Client.Waiting.{first_nap}

-- What is drawn is within the bound.
abbrev pub IsInRange : GenRange → Type 0
IsInRange gen_range = (d bound : ℕ) → gen_range d bound ≤ bound

pub jitter_secs-le :
    (gen_range : GenRange) (d : ℕ) (bound : Duration)
    → IsInRange gen_range
    → jitter_secs gen_range d bound ≤ as_secs bound
unfolding jitter_secs
jitter_secs-le gen_range d bound h = let k = h d (as_secs bound) in ground arith

sleep-le : (d : Duration) (w : World) → (sleep d w).1.clock ≤ w.clock + d + (first_nap w).lag
unfolding sleep
sleep-le d w = elim (Option-cases (first_nap w).signal) [
  | inl e ↦ rw (sleep, e) (omega arith)
  | inr ((after, signal), e) ↦ elim (Bool-cases (ltb after d)) [
    | inl b ↦ rw (sleep, e, b) (ground arith)
    | inr b ↦ rw (sleep, e, b) (omega arith)
  ]
]

ceiling_bounds :
    (b : Backoff)
    → (60 ≤ ceiling b) × (ceiling b ≤ 1_800) × (ceiling (advance b) ≡ min (2 * ceiling b) 1_800)
unfolding ceiling advance
ceiling_bounds b = go b.n
  where
    go :
        (n : ℕ)
        → (60 ≤ ceiling (record { n = n }))
          × (ceiling (record { n = n }) ≤ 1_800)
          × (ceiling (advance (record { n = n })) ≡ min (2 * ceiling (record { n = n })) 1_800)
    go zero = (omega arith, omega arith, refl)
    go (suc zero) = (omega arith, omega arith, refl)
    go (suc (suc zero)) = (omega arith, omega arith, refl)
    go (suc (suc (suc zero))) = (omega arith, omega arith, refl)
    go (suc (suc (suc (suc zero)))) = (omega arith, omega arith, refl)
    go (suc (suc (suc (suc (suc n))))) =
        let e : min (suc (suc (suc (suc (suc n))))) 5 ≡ 5 = omega arith in
        let e' : min (min (suc (suc (suc (suc (suc n)))) + 1) 6) 5 ≡ 5 = omega arith in
        rw (ceiling, advance, e, e') (omega arith, omega arith, refl)

-- A backoff takes at most its ceiling, if the timer is not late, and the ceiling is between one
-- minute and half an hour, doubling with every failure in a row up to it.
pub wait_backoff_bounds :
    (gen_range : GenRange) (self : RenewLoop)
    → IsInRange gen_range
    → ((wait_backoff gen_range self).1.world.clock
        ≤ self.world.clock + from_secs (ceiling self.backoff) + (first_nap self.world).lag)
      × (60 ≤ ceiling self.backoff)
      × (ceiling self.backoff ≤ 1_800)
      × (ceiling (wait_backoff gen_range self).1.backoff ≡ min (2 * ceiling self.backoff) 1_800)
unfolding wait_backoff
wait_backoff_bounds gen_range self h =
    let drawn = next 0 self.world.draws in
    let delay = jitter_secs gen_range drawn.0 (from_secs (ceiling self.backoff)) in
    let short = jitter_secs-le gen_range drawn.0 (from_secs (ceiling self.backoff)) h in
    let slept = sleep-le (from_secs delay) (record self.world { draws = drawn.1 }) in
    let (low, high, doubled) = ceiling_bounds self.backoff in (omega arith, low, high, doubled)
