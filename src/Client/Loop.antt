-- ===== src/Client/Loop.antt =====
-- ayane-cli/src/cmd/renew.rs: what ends the renewal loop, and what it leaves behind.
use ayane.Base.{
  ℕ, zero, suc, String, ◌≡◌, ◌≢◌, ◌<◌, ◌≤◌, ◌⊎◌, ◌∙◌, ap, subst, ◌-◌, inl, inr, refl, Bool, true,
  false, Option, none, some, List, [], ◌∷◌, ◌++◌, arith, Bool-cases, Option-cases, ◌&&◌, leb, ltb,
  nat_eq, if◌then◌else◌, min,
}
use mathlib.Core.List.{append_assoc}
use ayane.Ca.Serial.{Text}
use ayane.Service.{CertificateResponse}
use ayane.Time.{Duration, SystemTime, from_secs}
use ayane.Client.Request.{
  RequestError, transport, decode, status, Answer, Bodies, is_transient, deserialize_response_typed,
}
use ayane.Client.Request
use ayane.Client.Schedule.{GenRange, LoopConfig, next_renewal}
use ayane.Client.Renewal.{
  RenewLoop, World, Wake, Loaded, Event, requested, written, executed, Outcome, go, fail, proceed,
  stop, Report, not_loaded, no_proof, not_written, rejected, next, draw, sleep, is_stop, wait_until,
  wait_backoff, run_exec, post, store, renew, startup, wait_and_renew, cycle, run,
}
use ayane.Client.Waiting.{wake-cases}

-- An answer that no later attempt changes: not a failure to connect, nor of the server itself, nor
-- a refusal for too many requests.
abbrev pub IsFinal : RequestError → Type 0
IsFinal (transport e) = ⊥
IsFinal (decode e) = Unit
IsFinal (status s message) = ((s < 500) ⊎ (600 ≤ s)) × (s ≢ 429)

is_transient-IsFinal : (e : RequestError) → is_transient e ≡ false → IsFinal e
unfolding is_transient
is_transient-IsFinal (transport e) h = cc
is_transient-IsFinal (decode e) h = tt
is_transient-IsFinal (status s message) h = elim (Bool-cases (nat_eq s 429)) [
  | inl q ↦ absurd (ground arith)
  | inr q ↦ (ground arith, λ k. ground arith)
]

-- What may end a loop that is past its first iteration.
abbrev pub IsTerminal : Report → Type 0
IsTerminal not_loaded = ⊥
IsTerminal no_proof = Unit
IsTerminal not_written = Unit
IsTerminal (rejected e) = IsFinal e

abbrev IsFine : Outcome → Type 0
IsFine (go flow) = Unit
IsFine (fail e) = IsTerminal e

abbrev IsFineIf : Option Outcome → Type 0
IsFineIf none = Unit
IsFineIf (some o) = IsFine o

-- Every run of the hook comes just after a file was written.
unfoldable pub is_hooked : Bool → List Event → Bool
is_hooked fresh [] = true
is_hooked fresh (requested t pem ∷ log) = is_hooked false log
is_hooked fresh (written path text ∷ log) = is_hooked true log
is_hooked fresh (executed cmd ∷ log) = fresh && is_hooked false log

is_hooked-fresh :
    (log : List Event) → is_hooked false log ≡ true → (b : Bool) → is_hooked b log ≡ true
unfolding is_hooked
is_hooked-fresh [] h b = refl
is_hooked-fresh (requested t pem ∷ log) h b = h
is_hooked-fresh (written path text ∷ log) h b = h
is_hooked-fresh (executed cmd ∷ log) h b = cc

is_hooked-append :
    (b : Bool) (xs ys : List Event)
    → is_hooked b xs ≡ true
    → is_hooked false ys ≡ true
    → is_hooked b (xs ++ ys) ≡ true
unfolding is_hooked
is_hooked-append b [] ys h k = is_hooked-fresh ys k b
is_hooked-append b (requested t pem ∷ xs) ys h k = is_hooked-append false xs ys h k
is_hooked-append b (written path text ∷ xs) ys h k = is_hooked-append true xs ys h k
is_hooked-append true (executed cmd ∷ xs) ys h k = is_hooked-append false xs ys h k
is_hooked-append false (executed cmd ∷ xs) ys h k = cc

-- How a step goes: what it reports, and what it leaves of the loop.
record IsStep (before : RenewLoop) (o : Outcome) (after : RenewLoop) : Type 0 where
  fine : IsFine o
  first : after.first ≡ before.first
  hooked : is_hooked false before.world.log ≡ true → is_hooked false after.world.log ≡ true

sleep-log : (d : Duration) (w : World) → (sleep d w).1.log ≡ w.log
unfolding sleep
sleep-log d w = elim (Option-cases (next (record { signal = none; lag = 0 }) w.naps).0.signal) [
  | inl e ↦ rw (sleep, e) refl
  | inr ((after, signal), e) ↦ elim (Bool-cases (ltb after d)) [
    | inl b ↦ rw (sleep, e, b) refl
    | inr b ↦ rw (sleep, e, b) refl
  ]
]

wait-log :
    (fuel : ℕ) (max_sleep : Duration) (renew_at : SystemTime) (w : World)
    → (wait_until fuel max_sleep renew_at w).1.log ≡ w.log
unfolding wait_until
wait-log zero max_sleep renew_at w = refl
wait-log (suc fuel) max_sleep renew_at w = elim (Bool-cases (nat_eq (renew_at - w.clock) 0)) [
  | inl e ↦ rw (wait_until, e) refl
  | inr e ↦
      let nap = sleep (min (renew_at - w.clock) max_sleep) w in
      let same = sleep-log (min (renew_at - w.clock) max_sleep) w in
      elim (wake-cases nap.0) [
        | inl k ↦ rw (wait_until, e, k) (wait-log fuel max_sleep renew_at nap.1 ∙ same)
        | inr (inl k) ↦ rw (wait_until, e, k) same
        | inr (inr k) ↦ rw (wait_until, e, k) same
      ]
]

Answer-cases :
    {A : Type 0} (a : Answer A)
    → ((x : A) × (a ≡ Request.ok x)) ⊎ ((e : RequestError) × (a ≡ Request.err e))
Answer-cases (Request.ok x) = inl (x, refl)
Answer-cases (Request.err e) = inr (e, refl)

Outcome-cases : (o : Outcome) → ((e : Report) × (o ≡ fail e)) ⊎ (o ≡ go stop) ⊎ (o ≡ go proceed)
Outcome-cases (fail e) = inl (e, refl)
Outcome-cases (go stop) = inr (inl refl)
Outcome-cases (go proceed) = inr (inr refl)

module _ (gen_range : GenRange) where
  wait_backoff-IsStep :
      (self : RenewLoop)
      → IsStep self (wait_backoff gen_range self).0 (wait_backoff gen_range self).1
  unfolding wait_backoff
  wait_backoff-IsStep self = record { fine = tt; first = refl; hooked = λ h. rw (sleep-log _ _) h }

  module _ (J : Bodies) where
    run_exec-hooked :
        (cfg : LoopConfig) (w : World) (path : String) (text : Text)
        → is_hooked false w.log ≡ true
        → is_hooked false
            (run_exec gen_range cfg (record w { log = w.log ++ written path text ∷ [] })).log
          ≡ true
    unfolding run_exec is_hooked
    run_exec-hooked cfg w path text h = elim (Option-cases cfg.exec) [
      | inl e ↦ rw (run_exec, e) (is_hooked-append false w.log _ h refl)
      | inr (cmd, e) ↦
          rw (run_exec, e, append_assoc w.log (written path text ∷ []) (executed cmd ∷ []))
            (is_hooked-append false w.log _ h refl)
    ]

    store-IsStep :
        (resp : CertificateResponse) (self : RenewLoop)
        → IsStep self (store gen_range J resp self).0 (store gen_range J resp self).1
    unfolding store
    store-IsStep resp self = elim (Bool-cases (next false self.world.disk).0) [
      | inr e ↦ rw (store, e) (record { fine = tt; first = refl; hooked = λ h. h })
      | inl e ↦
          rw (store, e)
            (record {
              fine = tt;
              first = refl;
              hooked = λ h. run_exec-hooked self.cfg _ self.cfg.out _ h;
            })
    ]

    renew-IsStep :
        (loaded : Loaded) (self : RenewLoop)
        → IsStep self (renew gen_range J loaded self).0 (renew gen_range J loaded self).1
    unfolding renew post is_hooked
    renew-IsStep loaded self = elim (Bool-cases (next false self.world.proofs).0) [
      | inr e ↦ rw (renew, e) (record { fine = tt; first = refl; hooked = λ h. h })
      | inl e ↦
          elim (Answer-cases
            (post gen_range J loaded
              (record self.world { proofs = (next false self.world.proofs).1 })).0) [
                | inl (resp, a) ↦
                    rw (renew, e, a)
                      (let s = store-IsStep resp _ in
                        record {
                          fine = s.fine;
                          first = s.first;
                          hooked = λ h. s.hooked (is_hooked-append false self.world.log _ h refl);
                        })
                | inr (x, a) ↦ elim (Bool-cases (is_transient x)) [
                  | inl t ↦
                      rw (renew, e, a, t)
                        (let s = wait_backoff-IsStep _ in
                          record {
                            fine = s.fine;
                            first = s.first;
                            hooked = λ h. s.hooked (is_hooked-append false self.world.log _ h refl);
                          })
                  | inr t ↦
                      rw (renew, e, a, t)
                        (record {
                          fine = is_transient-IsFinal x t;
                          first = refl;
                          hooked = λ h. is_hooked-append false self.world.log _ h refl;
                        })
                ]
              ]
    ]

    startup-log :
        (renew_at : SystemTime) (self : RenewLoop)
        → (startup gen_range J renew_at self).1.log ≡ self.world.log
    unfolding startup
    startup-log renew_at self = elim (Bool-cases (self.first && leb renew_at self.world.clock)) [
      | inr e ↦ rw (startup, e) refl
      | inl e ↦
          let secs = (draw gen_range (min self.cfg.jitter self.cfg.max_sleep) self.world).0 in
          elim (Bool-cases (ltb 0 secs)) [
            | inl p ↦ rw (startup, e, p) (sleep-log (from_secs secs) _)
            | inr p ↦ rw (startup, e, p) refl
          ]
    ]

    -- How an iteration goes.
    record IsCycle (before : RenewLoop) (r : Option Outcome × RenewLoop) : Type 0 where
      fine : before.first ≡ false → IsFineIf r.0
      first : before.first ≡ false → r.1.first ≡ false
      hooked : is_hooked false before.world.log ≡ true → is_hooked false r.1.world.log ≡ true

    wait_and_renew-IsCycle :
        (fuel : ℕ) (loaded : Loaded) (renew_at : SystemTime) (self : RenewLoop)
        → IsCycle self (wait_and_renew gen_range J fuel loaded renew_at self)
    unfolding wait_and_renew
    wait_and_renew-IsCycle fuel loaded renew_at self =
        let waited = wait_until fuel self.cfg.max_sleep renew_at self.world in
        let same = wait-log fuel self.cfg.max_sleep renew_at self.world in
        elim (Option-cases waited.0) [
          | inl e ↦
              rw (wait_and_renew, e)
                (record { fine = λ _. tt; first = λ f. f; hooked = λ h. rw same h })
          | inr (wake, e) ↦ elim (Bool-cases (is_stop wake)) [
            | inl p ↦
                rw (wait_and_renew, e, p)
                  (record { fine = λ _. tt; first = λ f. f; hooked = λ h. rw same h })
            | inr p ↦
                rw (wait_and_renew, e, p)
                  (let s = renew-IsStep loaded (record self { world = waited.1 }) in
                    record {
                      fine = λ _. s.fine;
                      first = λ f. s.first ∙ f;
                      hooked = λ h. s.hooked (rw same h);
                    })
          ]
        ]

    -- The files cannot be read.
    unread-IsCycle :
        (f : Bool) (self self' : RenewLoop)
        → self.first ≡ f
        → self'.first ≡ self.first
        → self'.world.log ≡ self.world.log
        → IsCycle self (
            if f
            then (some (fail not_loaded), self')
            else (some (wait_backoff gen_range self').0, (wait_backoff gen_range self').1))
    unread-IsCycle true self self' q first same = record {
      fine = λ f. absurd (ground arith);
      first = λ f. first ∙ f;
      hooked = λ h. rw same h;
    }
    unread-IsCycle false self self' q first same =
        let s = wait_backoff-IsStep self' in
        record {
          fine = λ _. s.fine;
          first = λ f. s.first ∙ first ∙ f;
          hooked = λ h. s.hooked (rw same h);
        }

    -- The rest of an iteration, after the sleep of a first one.
    started-IsCycle :
        (fuel : ℕ) (loaded : Loaded) (renew_at : SystemTime) (self self' : RenewLoop)
        (woke : Wake × World)
        → self'.first ≡ self.first
        → woke.1.log ≡ self.world.log
        → IsCycle self (
            if is_stop woke.0
            then (some (go stop), record self' { world = woke.1 })
            else wait_and_renew gen_range J fuel loaded renew_at
                (record self' { first = false; world = woke.1 }))
    started-IsCycle fuel loaded renew_at self self' woke first same =
        elim (Bool-cases (is_stop woke.0)) [
          | inl p ↦
              rw p (record { fine = λ _. tt; first = λ f. first ∙ f; hooked = λ h. rw same h })
          | inr p ↦ rw p (
              let s =
                wait_and_renew-IsCycle fuel loaded renew_at
                  (record self' { first = false; world = woke.1 }) in
              record {
                fine = λ _. s.fine refl;
                first = λ _. s.first refl;
                hooked = λ h. s.hooked (rw same h);
              })
        ]

    cycle-IsCycle : (fuel : ℕ) (self : RenewLoop) → IsCycle self (cycle gen_range J fuel self)
    unfolding cycle
    cycle-IsCycle fuel self =
        let read = next none self.world.files in
        let self' = record self { world = record self.world { files = read.1 } } in
        elim (Option-cases read.0) [
          | inl e ↦ rw (cycle, e) (unread-IsCycle self.first self self' refl refl refl)
          | inr (loaded, e) ↦
              rw (cycle, e)
                (let drawn = draw gen_range self.cfg.jitter self'.world in
                  let renew_at = next_renewal loaded.not_before loaded.not_after self.cfg drawn.0 in
                  let begun = record self' { world = drawn.1 } in
                  started-IsCycle fuel loaded renew_at self begun
                    (startup gen_range J renew_at begun) refl (startup-log renew_at begun))
        ]

    run-IsCycle :
        (rounds fuel : ℕ) (self : RenewLoop) → IsCycle self (run gen_range J rounds fuel self)
    unfolding run
    run-IsCycle zero fuel self = record { fine = λ _. tt; first = λ f. f; hooked = λ h. h }
    run-IsCycle (suc rounds) fuel self =
        let c = cycle-IsCycle fuel self in
        let o = cycle gen_range J fuel self in
        let r = run-IsCycle rounds fuel o.1 in
        elim (Option-cases o.0) [
          | inl e ↦ rw (run, e) (record { fine = λ _. tt; first = c.first; hooked = c.hooked })
          | inr (out, e) ↦ elim (Outcome-cases out) [
            | inl (x, k) ↦
                rw (run, e, k)
                  (record {
                    fine = λ f. subst IsFineIf (e ∙ ap some k) (c.fine f);
                    first = c.first;
                    hooked = c.hooked;
                  })
            | inr (inl k) ↦
                rw (run, e, k) (record { fine = λ _. tt; first = c.first; hooked = c.hooked })
            | inr (inr k) ↦
                rw (run, e, k)
                  (record {
                    fine = λ f. r.fine (c.first f);
                    first = λ f. r.first (c.first f);
                    hooked = λ h. r.hooked (c.hooked h);
                  })
          ]
        ]

-- Past its first iteration, the loop ends with an error only where the CA rejects the request for
-- good, where the proof cannot be made, or where the certificate cannot be written: what is
-- transient, and files that cannot be read, are tried again.
pub run_fails :
    (gen_range : GenRange) (J : Bodies) (rounds fuel : ℕ) (self : RenewLoop) (e : Report)
    → self.first ≡ false
    → (run gen_range J rounds fuel self).0 ≡ some (fail e)
    → IsTerminal e
run_fails gen_range J rounds fuel self e f h =
    subst IsFineIf h ((run-IsCycle gen_range J rounds fuel self).fine f)

-- Every run of the hook comes just after a certificate was written, in whatever iterations.
pub run-is_hooked :
    (gen_range : GenRange) (J : Bodies) (rounds fuel : ℕ) (self : RenewLoop)
    → is_hooked false self.world.log ≡ true
    → is_hooked false (run gen_range J rounds fuel self).1.world.log ≡ true
run-is_hooked gen_range J rounds fuel self h = (run-IsCycle gen_range J rounds fuel self).hooked h
