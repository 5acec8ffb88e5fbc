-- ===== src/Storage/Outbox.antt =====
-- internal/storage/store.go: ProcessPending, CountPending and GetOutboxEvent. The broker that
-- `publish` talks to is a state of its own, which no rollback takes back.
pub mod Marks
pub mod Claim
pub mod Process
pub mod Consistent
use empower_technical_interv.Prelude.{
  ℕ, ◌+◌, Bool, true, false, ◌||◌, ◌&&◌, not, List, [], ◌∷◌, ◌++◌, map, Option, none, some,
  if◌then◌else◌, String, str_eq, find_row, select, take, length, ltb, leb,
}
use empower_technical_interv.Prelude.Int.{ℤ, pos, negsuc}
use empower_technical_interv.Errors.{
  Error, not_found, no_rows, is, Result, ok, err, ◌>>=◌, ◌>>◌, check,
}
use empower_technical_interv.Domain.{Time, EventId}
use empower_technical_interv.Storage.Tables.{
  OutboxRow, Db, Network, exec, settle, classify, classified,
}
use empower_technical_interv.Storage.Shipments.{OutboxEvent, has_event}

-- `failed` is the event at which publishing stopped, or "", and `error` its error.
pub record PublishResult : Type 0 where
  pub published : List EventId
  pub failed : EventId
  pub error : Error

-- `PublishResult{}`
abbrev pub no_result : PublishResult
no_result = record { published = []; failed = ""; error = [] }

abbrev pub is_pending : {P : Type 0} → OutboxRow P → Bool
is_pending r = elim r.published_at [ none ↦ true | some t ↦ false ]

abbrev pub contains_id : EventId → List EventId → Bool
contains_id id [] = false
contains_id id (x ∷ xs) = str_eq x id || contains_id id xs

-- ORDER BY created_at; rows of one instant keep their order.
module _ {P : Type 0} where
  unfoldable pub insert_by_time : OutboxRow P → List (OutboxRow P) → List (OutboxRow P)
  insert_by_time r [] = r ∷ []
  insert_by_time r (x ∷ xs) =
      let rest = insert_by_time r xs in
      if leb r.created_at x.created_at then r ∷ x ∷ xs else x ∷ rest

  unfoldable pub order_by_time : List (OutboxRow P) → List (OutboxRow P)
  order_by_time [] = []
  order_by_time (x ∷ xs) = insert_by_time x (order_by_time xs)

  abbrev pub outbox_event : OutboxRow P → OutboxEvent P
  outbox_event r = record {
    event_id = r.event_id;
    shipment_id = r.shipment_id;
    event_type = r.event_type;
    payload = r.payload;
    created_at = r.created_at;
    attempts = r.attempts;
  }

  -- The rows that the SELECT locks: those that no other transaction has.
  unfoldable pub claimable : (EventId → Bool) → List (OutboxRow P) → List (OutboxRow P)
  claimable is_locked rows =
      order_by_time (select (λ r. is_pending r && not (is_locked r.event_id)) rows)

  -- A negative LIMIT is an error of the server's.
  unfoldable pub claim_pending : Network → ℤ → Db P → Result (List (OutboxEvent P))
  claim_pending n (negsuc k) db = err []
  claim_pending n (pos limit) db =
      exec n.first (ok (map outbox_event (take limit (claimable n.is_locked db.outbox))))

  -- UPDATE ... WHERE event_id = ANY($1)
  unfoldable pub mark_row : Time → List EventId → OutboxRow P → OutboxRow P
  mark_row now ids r =
      if contains_id r.event_id ids
      then record r { published_at = some now; attempts = r.attempts + 1; last_error = none }
      else r

  unfoldable pub mark_published : Time → List EventId → List (OutboxRow P) → List (OutboxRow P)
  mark_published now ids [] = []
  mark_published now ids (r ∷ rs) = mark_row now ids r ∷ mark_published now ids rs

  -- UPDATE ... WHERE event_id = $1
  unfoldable pub note_row : EventId → Error → OutboxRow P → OutboxRow P
  note_row id e r =
      if str_eq r.event_id id
      then record r { attempts = r.attempts + 1; last_error = some e }
      else r

  unfoldable pub record_failure : EventId → Error → List (OutboxRow P) → List (OutboxRow P)
  record_failure id e [] = []
  record_failure id e (r ∷ rs) = note_row id e r ∷ record_failure id e rs

  -- The two UPDATEs, each under its test.
  unfoldable pub record_published : Network → PublishResult → Db P → Result (Db P)
  record_published n result db =
      if ltb 0 (length result.published)
      then exec n.second
          (ok (record db { outbox = mark_published n.now result.published db.outbox }))
      else ok db

  unfoldable pub record_failed : Network → PublishResult → Db P → Result (Db P)
  record_failed n result db =
      if not (str_eq result.failed "")
      then exec n.third
          (ok (record db { outbox = record_failure result.failed result.error db.outbox }))
      else ok db

  unfoldable pub record_result : Network → PublishResult → Db P → Result (PublishResult × Db P)
  record_result n result db = do
    marked ← record_published n result db
    noted ← record_failed n result marked
    ok (result, noted)

-- A PublishFunc over the broker's state `W`.
abbrev pub PublishFunc : Type 0 → Type 0 → Type 0
PublishFunc P W = List (OutboxEvent P) → W → PublishResult × W

module _ {P W : Type 0} (publish : PublishFunc P W) where
  unfoldable pub publish_batch :
      Network → Db P → List (OutboxEvent P) → W → Result (PublishResult × Db P) × W
  publish_batch n db [] w = (ok (no_result, db), w)
  publish_batch n db (evt ∷ evts) w =
      let (result, w') = publish (evt ∷ evts) w in (record_result n result db, w')

  -- The function that BeginFunc runs.
  unfoldable pub process_body : Network → ℤ → Db P → W → Result (PublishResult × Db P) × W
  process_body n limit db w = elim (claim_pending n limit db) [
    | err e ↦ (err e, w)
    | ok batch ↦ publish_batch n db batch w
  ]

  unfoldable pub process_pending : Network → ℤ → Db P → W → Result PublishResult × Db P × W
  process_pending n limit db w = elim n.begin [
    | some e ↦ (err (classify e), db, w)
    | none ↦
        let (r, w') = process_body n limit db w in
        let (result, after) = settle n.commit db r in (classified result, after, w')
  ]

module _ {P : Type 0} where
  unfoldable pub count_pending : Option Error → Db P → Result ℕ
  count_pending (some e) db = err (classify e)
  count_pending none db = ok (length (select is_pending db.outbox))

  unfoldable pub get_outbox_event : Option Error → EventId → Db P → Result (OutboxEvent P)
  get_outbox_event (some e) id db = if is no_rows e then err (not_found ∷ []) else err (classify e)
  get_outbox_event none id db = elim (has_event id db) [
    | none ↦ err (not_found ∷ [])
    | some r ↦ ok (outbox_event r)
  ]
