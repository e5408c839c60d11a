-- ===== src/Storage/Dynamo/Paging.antt =====
-- ayane/src/storage/dynamodb.rs: `list_revocations`, page by page, and the backend as a whole.
use ayane.Base.{
  ℕ, zero, suc, ◌+◌, Bool, Option, none, some, List, [], ◌∷◌, ◌++◌, length, retain, take, drop,
  is_empty, if◌then◌else◌, unwrap_or,
}
use ayane.Error.{Result, ok, err}
use ayane.Action.{Action, pure, lift, ◌>>=◌}
use ayane.Storage.{RevocationRecord, Storage}
use ayane.Storage.Dynamo.{
  DynamoDbStorage, Item, Serde, read, record_certificate, get_certificate, revoke, get_revocation,
  claim_token, get_cache, set_cache, reap_expired,
}
use ayane.Storage.Dynamo.Keys.{is_revocation_type}

abbrev pub is_revocation : Item → Bool
is_revocation item = is_revocation_type item.key.sk

-- A page of the inverted index, from a position on, and the position after it where more is left.
unfoldable pub query_page : ℕ → ℕ → List Item → List Item × Option ℕ
query_page start page seen =
    let items = drop start (retain is_revocation seen) in
    (
      take (suc page) items,
      if is_empty (drop (suc page) items) then none else some (start + suc page),
    )

module _ (J : Serde) where
  unfoldable pub from_items : List Item → Result (List RevocationRecord)
  from_items [] = ok []
  from_items (item ∷ items) = elim (J.revocation_from_item item.attributes) [
    | err e ↦ err e
    | ok r ↦ elim (from_items items) [ err e ↦ err e | ok rs ↦ ok (r ∷ rs) ]
  ]

  -- the loop; `none` where the fuel runs out
  unfoldable pub pages :
      ℕ → ℕ → List RevocationRecord → Action DynamoDbStorage (Option (List RevocationRecord))
  pages zero start out = pure none
  pages (suc fuel) start out = do
    response ← read λ page seen. ok (query_page start page seen)
    page ← lift (from_items response.0)
    elim response.1 [ none ↦ pure (some (out ++ page)) | some key ↦ pages fuel key (out ++ page) ]

  -- one round more than either view of the table has items
  abbrev pub page_bound : DynamoDbStorage → ℕ
  page_bound s =
      suc (length (retain is_revocation s.table) + length (retain is_revocation s.replica))

  unfoldable pub list_revocations : Action DynamoDbStorage (List RevocationRecord)
  list_revocations s = (do out ← pages (page_bound s) 0 []; pure (unwrap_or out [])) s

  -- `impl Storage for DynamoDbStorage`
  unfoldable pub dynamo : Storage DynamoDbStorage
  dynamo = record {
    record_certificate = record_certificate J;
    get_certificate = get_certificate J;
    revoke = revoke J;
    get_revocation = get_revocation J;
    list_revocations = list_revocations;
    claim_token = claim_token;
    get_cache = get_cache;
    set_cache = set_cache;
    reap_expired = reap_expired;
  }
