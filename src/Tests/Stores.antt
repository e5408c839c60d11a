-- ===== src/Tests/Stores.antt =====
-- The storage theorems at a database with a claim and a revocation.
use ayane.Base.{◌+◌, ◌≡◌, ◌≢◌, ◌↔◌, ◌<◌, refl, none, some, List, [], ◌∷◌, arith, Any}
use ayane.Error.{err, internal, ok}
use ayane.Time.{SystemTime, unix_epoch, from_secs}
use ayane.Storage.{secs}
use ayane.Storage.Replay.{Call, steps}
use ayane.Storage.Replay
use ayane.Storage.Sqlite.{
  SqliteStorage, claim_token, sqlite, transaction, claim_row, execute, next_fault, rolled_back,
  unix_secs, insert_or_ignore, delete_expired_token, insert_token,
}
use ayane.Storage.Sqlite.Rollback.{claim_token_restores}
use ayane.Storage.Sqlite.Claims.{claim_iff}
use ayane.Storage.Sqlite.Replay.{claim-rejected}
use ayane.Action
use ayane.Tests.Fixtures.{json, flaky, empty}

abbrev noon : SystemTime
noon = unix_epoch + from_secs 1000

claim_iff_example :
    ((claim_token noon "jti#a" (noon + from_secs 60) (record { database = empty; faults = [] })).0
      ≡ ok tt)
    ↔ ¬ Any (λ row. (row.jti ≡ "jti#a") × (secs noon < row.expires_at)) empty.tokens
claim_iff_example = claim_iff noon "jti#a" (noon + from_secs 60) empty (omega arith) (omega arith)

-- A claim of the same id that the engine fails, a reap, and a claim of another id.
abbrev between : List Call
between =
    Replay.claim_token (noon + from_secs 10) "jti#a" (noon + from_secs 90)
    ∷ Replay.reap_expired (noon + from_secs 20)
    ∷ Replay.claim_token (noon + from_secs 30) "jti#b" (noon + from_secs 90)
    ∷ []

claimed_once : (claim_token noon "jti#a" (noon + from_secs 60) flaky).0 ≡ ok tt
unfolding claim_token claim_row transaction execute next_fault rolled_back unix_secs
    insert_or_ignore delete_expired_token insert_token Action.◌>>=◌ Action.continue Action.lift
    Action.pure
claimed_once = refl

claim-rejected_example :
    (claim_token
      (noon + from_secs 59)
      "jti#a"
      (noon + from_secs 200)
      (steps (sqlite json) between (claim_token noon "jti#a" (noon + from_secs 60) flaky).1)).0
    ≢ ok tt
claim-rejected_example =
    claim-rejected json noon (noon + from_secs 59) "jti#a" (noon + from_secs 60)
      (noon + from_secs 200) flaky between claimed_once
      (omega arith, (omega arith, (omega arith, tt))) (omega arith)

-- An expired claim, and an engine that fails the insertion after the claim's deletion.
abbrev broken : SqliteStorage
broken = record {
  database = record empty { tokens = record { jti = "jti#a"; expires_at = 5 } ∷ [] };
  faults = none ∷ some "disk full" ∷ [];
}

failed : (claim_token noon "jti#a" (noon + from_secs 60) broken).0 ≡ err (internal "disk full")
unfolding claim_token claim_row transaction execute next_fault rolled_back unix_secs
    insert_or_ignore delete_expired_token insert_token Action.◌>>=◌ Action.continue Action.lift
    Action.pure
failed = refl

claim_token_restores_example :
    (claim_token noon "jti#a" (noon + from_secs 60) broken).1.database ≡ broken.database
claim_token_restores_example =
    claim_token_restores noon "jti#a" (noon + from_secs 60) broken (internal "disk full") failed
