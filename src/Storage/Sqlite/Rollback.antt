-- ===== src/Storage/Sqlite/Rollback.antt =====
-- A transaction that fails leaves no trace.
use ayane.Base.{String, ◌≡◌, refl}
use ayane.Error.{Error, Result, ok, err}
use ayane.Action.{Action, lift, ◌>>=◌, continue}
use ayane.Time.{SystemTime}
use ayane.Storage.Sqlite.{
  SqliteStorage, Database, unix_secs, rolled_back, transaction, claim_token, reap_expired,
}

rolled_back-eq-err :
    {A : Type 0} (before : Database) (o : Result A × SqliteStorage) (e : Error)
    → (rolled_back before o).0 ≡ err e
    → (rolled_back before o).1.database ≡ before
unfolding rolled_back
rolled_back-eq-err before (ok a, s) e h = cc
rolled_back-eq-err before (err d, s) e h = refl

-- An action whose failures leave the database.
record Restores {A : Type 0} (m : Action SqliteStorage A) : Type 0 where
  at : (s : SqliteStorage) (e : Error) → (m s).0 ≡ err e → (m s).1.database ≡ s.database

Restores-transaction : {A : Type 0} (body : Action SqliteStorage A) → Restores (transaction body)
unfolding transaction
Restores-transaction body = record { at = λ s e h. rolled_back-eq-err s.database _ e h }

Restores-lift-bind :
    {A B : Type 0} (r : Result A) (f : A → Action SqliteStorage B)
    → ((a : A) → Restores (f a))
    → Restores (lift r >>= f)
unfolding lift ◌>>=◌ continue
Restores-lift-bind (ok a) f k = record { at = λ s e h. (k a).at s e h }
Restores-lift-bind (err d) f k = record { at = λ s e h. refl }

-- A claim that fails, at whatever statement, leaves the database as it was.
pub claim_token_restores :
    (now : SystemTime) (j : String) (t : SystemTime) (s : SqliteStorage) (e : Error)
    → (claim_token now j t s).0 ≡ err e
    → (claim_token now j t s).1.database ≡ s.database
unfolding claim_token
claim_token_restores now j t s e h =
    (Restores-lift-bind (unix_secs t) _
        λ expires. Restores-lift-bind (unix_secs now) _ λ now_secs. Restores-transaction _).at
      s e h

-- A reap that fails, at whatever statement, leaves the database as it was.
pub reap_expired_restores :
    (now : SystemTime) (s : SqliteStorage) (e : Error)
    → (reap_expired now s).0 ≡ err e
    → (reap_expired now s).1.database ≡ s.database
unfolding reap_expired
reap_expired_restores now s e h =
    (Restores-lift-bind (unix_secs now) _ λ now_secs. Restores-transaction _).at s e h
