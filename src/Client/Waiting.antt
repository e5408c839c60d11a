-- ===== src/Client/Waiting.antt =====
-- ayane-cli/src/cmd/renew.rs: when a renewal is due, and that the wait for it ends.
use ayane.Base.{
  ℕ, zero, suc, ◌+◌, ◌-◌, ◌*◌, ◌≤◌, ◌<◌, ◌≡◌, ◌≢◌, ◌⊎◌, min, inl, inr, refl, true, none, some,
  arith, Bool-cases, Option-cases, nat_eq, ltb,
}
use native.Mathlib.Nat.{zero-mul, suc-mul}
use ayane.Time.{SystemTime, Duration}
use ayane.Client.Schedule.{LoopConfig, base_time, next_renewal}
use ayane.Client.Renewal.{
  Wake, elapsed, hangup, terminated, Signal, sighup, sigterm, sigint, wake_of, Nap, World, sleep,
  next, wait_until,
}

-- The fraction is less than one.
abbrev pub IsFraction : LoopConfig → Type 0
IsFraction cfg = (d : Duration) → cfg.mul_fraction d ≤ d

-- A renewal is due within the certificate's window, whatever the jitter is.
pub next_renewal_bounds :
    (not_before not_after : SystemTime) (cfg : LoopConfig) (jitter : ℕ)
    → IsFraction cfg
    → not_before ≤ not_after
    → (not_before ≤ next_renewal not_before not_after cfg jitter)
      × (next_renewal not_before not_after cfg jitter ≤ not_after)
unfolding next_renewal base_time
next_renewal_bounds not_before not_after cfg jitter h le =
    let k = h (not_after - not_before) in
    elim (Option-cases cfg.renew_before) [
      | inl e ↦ rw e (ground arith)
      | inr (before, e) ↦ rw e (ground arith)
    ]

wake-ne-elapsed : (s : Signal) → wake_of s ≢ elapsed
wake-ne-elapsed sighup h = cc
wake-ne-elapsed sigterm h = cc
wake-ne-elapsed sigint h = cc

pub wake-cases : (w : Wake) → (w ≡ elapsed) ⊎ (w ≡ hangup) ⊎ (w ≡ terminated)
wake-cases elapsed = inl refl
wake-cases hangup = inr (inl refl)
wake-cases terminated = inr (inr refl)

abbrev pub first_nap : World → Nap
first_nap w = (next (record { signal = none; lag = 0 }) w.naps).0

-- A sleep that is not disturbed lasts its duration at least, and late by its lag.
pub sleep-clock :
    (d : Duration) (w : World)
    → (sleep d w).0 ≡ elapsed
    → (sleep d w).1.clock ≡ w.clock + d + (first_nap w).lag
unfolding sleep
sleep-clock d w h = elim (Option-cases (first_nap w).signal) [
  | inl e ↦ rw (sleep, e) refl
  | inr ((after, signal), e) ↦ elim (Bool-cases (ltb after d)) [
    | inl b ↦ absurd (wake-ne-elapsed signal (rw (sleep, e, b) at h))
    | inr b ↦ rw (sleep, e, b) refl
  ]
]

-- The wait for a renewal ends, where the cap on a sleep is not zero, after one round more than the
-- caps that fit into it, however the signals come and however late the timers are.
pub wait_ends :
    (fuel : ℕ) (max_sleep : Duration) (renew_at : SystemTime) (w : World)
    → 0 < max_sleep
    → renew_at - w.clock ≤ fuel * max_sleep
    → (wait_until (suc fuel) max_sleep renew_at w).0 ≢ none
unfolding wait_until
wait_ends zero max_sleep renew_at w pos le q =
    let e : nat_eq (renew_at - w.clock) 0 ≡ true = let z = zero-mul max_sleep in ground arith in
    let q' = rw (wait_until, e) at q in cc
wait_ends (suc fuel) max_sleep renew_at w pos le q =
    elim (Bool-cases (nat_eq (renew_at - w.clock) 0)) [
      | inl e ↦ let q' = rw (wait_until, e) at q in cc
      | inr e ↦
          let nap = sleep (min (renew_at - w.clock) max_sleep) w in
          elim (wake-cases nap.0) [
            | inr (inl k) ↦ let q' = rw (wait_until, e, k) at q in cc
            | inr (inr k) ↦ let q' = rw (wait_until, e, k) at q in cc
            | inl k ↦
                let later = sleep-clock (min (renew_at - w.clock) max_sleep) w k in
                let more = suc-mul fuel max_sleep in
                wait_ends fuel max_sleep renew_at nap.1 pos (omega arith)
                  (rw (wait_until, e, k) at q)
          ]
    ]

-- A wait that no signal ends goes on until the renewal is due.
pub wait_due :
    (fuel : ℕ) (max_sleep : Duration) (renew_at : SystemTime) (w : World)
    → (wait_until fuel max_sleep renew_at w).0 ≡ some elapsed
    → renew_at ≤ (wait_until fuel max_sleep renew_at w).1.clock
unfolding wait_until
wait_due zero max_sleep renew_at w q = absurd (ground arith)
wait_due (suc fuel) max_sleep renew_at w q = elim (Bool-cases (nat_eq (renew_at - w.clock) 0)) [
  | inl e ↦ rw (wait_until, e) (ground arith)
  | inr e ↦
      let nap = sleep (min (renew_at - w.clock) max_sleep) w in
      elim (wake-cases nap.0) [
        | inr (inl k) ↦ let q' = rw (wait_until, e, k) at q in cc
        | inr (inr k) ↦ let q' = rw (wait_until, e, k) at q in cc
        | inl k ↦
            rw (wait_until, e, k)
              (wait_due fuel max_sleep renew_at nap.1 (rw (wait_until, e, k) at q))
      ]
]
