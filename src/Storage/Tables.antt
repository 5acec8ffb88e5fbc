-- ===== src/Storage/Tables.antt =====
-- db/migrations/0001_init.sql, and what internal/storage/store.go uses of a transaction: the tables,
-- their constraints, pgx.BeginFunc and the classification of errors. What the server and the network
-- decide is the parameter `Network` of a transaction; what a column type does to a value is `Columns`.
use empower_technical_interv.Prelude.{
  ℕ, Bool, ◌||◌, List, ◌∷◌, Option, none, some, if◌then◌else◌, String, ◌≡◌,
}
use empower_technical_interv.Prelude.Int.{ℤ}
use empower_technical_interv.Errors.{
  Error, is, canceled, deadline_exceeded, connect_error, net_error, safe_to_retry, db_unavailable,
  Result, ok, err,
}
use empower_technical_interv.Domain.{Time, EventId, ShipmentId, DispatchId}

-- The columns JSONB, TIMESTAMPTZ and CHAR(3): what is read back, or `none` if the value is refused.
pub record Columns (P : Type 0) : Type 0 where
  pub jsonb : P → Option P
  pub timestamptz : Time → Time
  pub char3 : String → Option String

pub record ShipmentRow : Type 0 where
  pub shipment_id : ShipmentId
  pub weight_grams : ℤ
  pub amount_cents : ℤ
  pub currency : String
  pub created_at : Time

pub record OutboxRow (P : Type 0) : Type 0 where
  pub event_id : EventId
  pub shipment_id : ShipmentId
  pub event_type : String
  pub payload : P
  pub created_at : Time
  pub published_at : Option Time
  pub attempts : ℕ
  pub last_error : Option Error

pub record DispatchRow : Type 0 where
  pub dispatch_id : DispatchId
  pub shipment_id : ShipmentId
  pub event_id : EventId
  pub amount_cents : ℤ
  pub currency : String
  pub dispatched_at : Time

pub record Db (P : Type 0) : Type 0 where
  pub shipments : List ShipmentRow
  pub outbox : List (OutboxRow P)
  pub processed : List EventId
  pub dispatches : List DispatchRow

-- How a commit ends. After `in_doubt` the caller has an error and the server has the rows: the
-- connection broke before the acknowledgement came back.
pub data Commit : Type 0 where
  committed : Commit
  refused in_doubt : Error → Commit

-- One transaction, as the server and the network treat it: what BEGIN and each statement report, the
-- rows that other transactions have locked, `now()`, and the end of the commit.
pub record Network : Type 0 where
  pub begin : Option Error
  pub first : Option Error
  pub second : Option Error
  pub third : Option Error
  pub is_locked : EventId → Bool
  pub now : Time
  pub commit : Commit

-- No statement of the transaction fails and the commit is acknowledged.
pub record IsCalm (n : Network) : Type 0 where
  pub begin_ok : n.begin ≡ none
  pub first_ok : n.first ≡ none
  pub second_ok : n.second ≡ none
  pub commit_ok : n.commit ≡ committed

-- A body reads and writes its own snapshot, which an error discards.
abbrev pub Tx : Type 0 → Type 0 → Type 0
Tx P A = Db P → Result (A × Db P)

abbrev pub exec : {A : Type 0} → Option Error → Result A → Result A
exec (some e) r = err e
exec none r = r

pub exec_ok :
    {A : Type 0} (fault : Option Error) {r : Result A} {a : A} → exec fault r ≡ ok a → r ≡ ok a
exec_ok none h = h
exec_ok (some e) h = cc

-- The end of pgx.BeginFunc: a failed body is rolled back, and else the commit decides.
abbrev pub settle : {P A : Type 0} → Commit → Db P → Result (A × Db P) → Result A × Db P
settle c db (err e) = (err e, db)
settle committed db (ok (a, after)) = (ok a, after)
settle (refused e) db (ok (a, after)) = (err e, db)
settle (in_doubt e) db (ok (a, after)) = (err e, after)

-- pgx.BeginFunc
unfoldable pub begin_func : {P A : Type 0} → Network → Tx P A → Db P → Result A × Db P
begin_func n body db = elim n.begin [ some e ↦ (err e, db) | none ↦ settle n.commit db (body db) ]

unfoldable pub classify : Error → Error
classify e =
    if is canceled e || is deadline_exceeded e
    then e
    else if is connect_error e || is net_error e || is safe_to_retry e
    then db_unavailable ∷ e
    else e

-- An error that is returned through `classify`.
abbrev pub classified {ℓ} : {A : Type ℓ} → Result A → Result A
classified (ok a) = ok a
classified (err e) = err (classify e)

-- Store.Ping, on what the pool's ping answers.
unfoldable pub ping : Option Error → Option Error
ping none = none
ping (some e) = some (classify e)
