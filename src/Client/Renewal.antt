-- ===== src/Client/Renewal.antt =====
-- ayane-cli/src/cmd/renew.rs: the renewal loop, in a world that gives the readings of the files, the
-- signals, the random numbers and the answers of the CA, in order.
use ayane.Base.{
  ℕ, zero, suc, ◌+◌, ◌-◌, min, String, Bool, true, false, ◌&&◌, Option, none, some, List, [], ◌∷◌,
  ◌++◌, leb, ltb, nat_eq, if◌then◌else◌,
}
use ayane.Time.{SystemTime, Duration, from_secs}
use ayane.Ca.Serial.{Text}
use ayane.Service.{CertificateResponse}
use ayane.Client.Request.{
  RequestError, Answer, Response, Bodies, deserialize_response_typed, is_transient, fullchain,
}
use ayane.Client.Request
use ayane.Client.Schedule.{
  LoopConfig, GenRange, Backoff, next_renewal, jitter_secs, ceiling, advance, reset,
}

-- why a sleep ended
pub data Wake : Type 0 where
  elapsed hangup terminated : Wake

abbrev pub is_stop : Wake → Bool
is_stop terminated = true
is_stop _ = false

pub data Flow : Type 0 where
  proceed stop : Flow

pub data Signal : Type 0 where
  sighup sigterm sigint : Signal

abbrev pub wake_of : Signal → Wake
wake_of sighup = hangup
wake_of _ = terminated

-- how a sleep goes: the signal that comes, and when; the timer is late by `lag`
pub record Nap : Type 0 where
  pub signal : Option (Duration × Signal)
  pub lag : Duration

-- the certificate's text and window, and the key's text
pub record Loaded : Type 0 where
  pub cert_pem : String
  pub key : String
  pub not_before : SystemTime
  pub not_after : SystemTime

-- what has left the client: a request for a certificate at an instant, a file, a run of the hook
pub data Event : Type 0 where
  requested : SystemTime → String → Event
  written : String → Text → Event
  executed : String → Event

-- Each list is of the things to come. Past their ends, a sleep is not disturbed, a draw is 0, and
-- files and answers fail.
pub record World : Type 0 where
  pub clock : SystemTime
  pub naps : List Nap
  pub draws : List ℕ
  pub files : List (Option Loaded)
  pub proofs : List Bool
  pub responses : List Response
  pub disk : List Bool
  pub log : List Event

-- why the loop ends with an error
pub data Report : Type 0 where
  not_loaded no_proof not_written : Report
  rejected : RequestError → Report

pub data Outcome : Type 0 where
  go : Flow → Outcome
  fail : Report → Outcome

abbrev pub next : {A : Type 0} → A → List A → A × List A
next d [] = (d, [])
next d (x ∷ xs) = (x, xs)

unfoldable pub sleep : Duration → World → Wake × World
sleep duration w =
    let (nap, naps) = next (record { signal = none; lag = 0 }) w.naps in
    let late = w.clock + duration + nap.lag in
    elim nap.signal [
      | none ↦ (elapsed, record w { clock = late; naps = naps })
      | some (after, signal) ↦
          if ltb after duration
          then (wake_of signal, record w { clock = w.clock + after; naps = naps })
          else (elapsed, record w { clock = late; naps = naps })
    ]

-- the loop of `wait_until`; `none` where the fuel runs out
unfoldable pub wait_until : ℕ → Duration → SystemTime → World → Option Wake × World
wait_until zero max_sleep renew_at w = (none, w)
wait_until (suc fuel) max_sleep renew_at w = elim (nat_eq (renew_at - w.clock) 0) [
  | true ↦ (some elapsed, w)
  | false ↦
      let (woke, w') = sleep (min (renew_at - w.clock) max_sleep) w in
      elim woke [
        | elapsed ↦ wait_until fuel max_sleep renew_at w'
        | hangup ↦ (some hangup, w')
        | terminated ↦ (some terminated, w')
      ]
]

pub record RenewLoop : Type 0 where
  pub cfg : LoopConfig
  pub backoff : Backoff
  pub first : Bool
  pub world : World

module _ (gen_range : GenRange) where
  abbrev pub draw : Duration → World → ℕ × World
  draw bound w =
      let (d, draws) = next 0 w.draws in (jitter_secs gen_range d bound, record w { draws = draws })

  -- `Backoff::wait`, and the flow that `backoff` makes of it
  unfoldable pub wait_backoff : RenewLoop → Outcome × RenewLoop
  wait_backoff self =
      let (delay, w) = draw (from_secs (ceiling self.backoff)) self.world in
      let (woke, w') = sleep (from_secs delay) w in
      (
        go (if is_stop woke then stop else proceed),
        record self { backoff = advance self.backoff; world = w' },
      )

  unfoldable pub run_exec : LoopConfig → World → World
  run_exec cfg w = elim cfg.exec [
    | none ↦ w
    | some cmd ↦ record w { log = w.log ++ executed cmd ∷ [] }
  ]

  module _ (J : Bodies) where
    unfoldable pub post : Loaded → World → Answer CertificateResponse × World
    post loaded w =
        let (response, responses) = next (Request.unreachable "") w.responses in
        (
          deserialize_response_typed J response,
          record w { responses = responses; log = w.log ++ requested w.clock loaded.cert_pem ∷ [] },
        )

    unfoldable pub store : CertificateResponse → RenewLoop → Outcome × RenewLoop
    store resp self =
        let (good, disk) = next false self.world.disk in
        let w = record self.world { disk = disk } in
        if good
        then (
          go proceed,
          record self {
            backoff = reset;
            world =
                run_exec self.cfg
                  (record w { log = w.log ++ written self.cfg.out (fullchain resp) ∷ [] });
          },
        )
        else (fail not_written, record self { world = w })

    unfoldable pub renew : Loaded → RenewLoop → Outcome × RenewLoop
    renew loaded self =
        let (proof, proofs) = next false self.world.proofs in
        let w = record self.world { proofs = proofs } in
        let (answer, w') = post loaded w in
        let self' = record self { world = w' } in
        elim proof [
          | false ↦ (fail no_proof, record self { world = w })
          | true ↦ elim answer [
            | Request.ok resp ↦ store resp self'
            | Request.err e ↦
                if is_transient e then wait_backoff self' else (fail (rejected e), self')
          ]
        ]

    -- the sleep of a first iteration that is already due
    unfoldable pub startup : SystemTime → RenewLoop → Wake × World
    startup renew_at self =
        let w = self.world in
        let (secs, w') = draw (min self.cfg.jitter self.cfg.max_sleep) w in
        if self.first && leb renew_at w.clock
        then if ltb 0 secs then sleep (from_secs secs) w' else (elapsed, w')
        else (elapsed, w)

    unfoldable pub wait_and_renew : ℕ → Loaded → SystemTime → RenewLoop → Option Outcome × RenewLoop
    wait_and_renew fuel loaded renew_at self =
        let (woke, w) = wait_until fuel self.cfg.max_sleep renew_at self.world in
        let self' = record self { world = w } in
        elim woke [
          | none ↦ (none, self')
          | some wake ↦
              if is_stop wake
              then (some (go stop), self')
              else (some (renew loaded self').0, (renew loaded self').1)
        ]

    -- one iteration; `none` where the fuel of the waiting runs out
    unfoldable pub cycle : ℕ → RenewLoop → Option Outcome × RenewLoop
    cycle fuel self =
        let (file, files) = next none self.world.files in
        let self' = record self { world = record self.world { files = files } } in
        elim file [
          | none ↦
              if self.first
              then (some (fail not_loaded), self')
              else (some (wait_backoff self').0, (wait_backoff self').1)
          | some loaded ↦
              let (jitter, w) = draw self.cfg.jitter self'.world in
              let renew_at = next_renewal loaded.not_before loaded.not_after self.cfg jitter in
              let (woke, w') = startup renew_at (record self' { world = w }) in
              if is_stop woke
              then (some (go stop), record self' { world = w' })
              else wait_and_renew fuel loaded renew_at (record self' { first = false; world = w' })
        ]

    -- `run`, for so many iterations at most
    unfoldable pub run : ℕ → ℕ → RenewLoop → Option Outcome × RenewLoop
    run zero fuel self = (none, self)
    run (suc rounds) fuel self =
        let (outcome, self') = cycle fuel self in
        elim outcome [
          | none ↦ (none, self')
          | some o ↦ elim o [
            | fail e ↦ (some (fail e), self')
            | go flow ↦ elim flow [
              | stop ↦ (some (go stop), self')
              | proceed ↦ run rounds fuel self'
            ]
          ]
        ]
