-- ===== src/Storage/Sqlite/Replay.antt =====
-- What SQLite's claims promise across any later calls, those that fail
-- included.
use ayane.Base.{String, ◌≡◌, ◌≢◌, List, All}
use ayane.Error.{ok}
use ayane.Time.{SystemTime}
use ayane.Storage.{claimed, Outlives, secs}
use ayane.Storage.Replay.{Call, steps, Within, replay_rejected}
use ayane.Storage.Sqlite.{Json, SqliteStorage, claim_token, sqlite}
use ayane.Storage.Sqlite.Laws.{sqlite_contract}

-- After a claim of a token id that succeeds, and any calls of the operations before it expires,
-- another claim of the same id before it expires is refused, whatever the engine does.
pub claim-rejected :
    (J : Json) (now later : SystemTime) (j : String) (t t' : SystemTime) (s : SqliteStorage)
    (calls : List Call)
    → (claim_token now j t s).0 ≡ ok tt
    → All (Within (claimed j (secs t))) calls
    → Outlives (claimed j (secs t)) later
    → (claim_token later j t' (steps (sqlite J) calls (claim_token now j t s).1)).0 ≢ ok tt
unfolding sqlite
claim-rejected J now later j t t' s calls h w lt =
    replay_rejected (sqlite J) (sqlite_contract J) now later j t t' s calls h w lt
