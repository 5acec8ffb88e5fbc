-- ===== src/Storage/Outbox/Marks.antt =====
-- The two UPDATEs of ProcessPending: which rows they change, and what they keep.
use empower_technical_interv.Prelude.{
  ◌≡◌, refl, ap, ◌∙◌, inl, inr, not, List, [], ◌∷◌, Option, none, some, arith, str_eq, str_eq_refl,
  Bool-cases, lookup_by, if◌then◌else◌,
}
use empower_technical_interv.Errors.{Error, ok}
use empower_technical_interv.Errors.Chain.{>>=-eq-ok}
use empower_technical_interv.Domain.{EventId, Time}
use empower_technical_interv.Storage.Tables.{OutboxRow, Db, Network}
use empower_technical_interv.Storage.Invariant.{outbox_key}
use empower_technical_interv.Storage.Outbox.{
  PublishResult, no_result, contains_id, mark_row, mark_published, note_row, record_failure,
  record_published, record_failed, record_result,
}

abbrev pub on_some {ℓ κ} : {A : Type ℓ} {B : Type κ} → (A → B) → Option A → Option B
on_some f none = none
on_some f (some a) = some (f a)

module _ {P : Type 0} where
  -- What both UPDATEs leave as it is.
  pub record SameEvent (r r' : OutboxRow P) : Type 0 where
    pub same_event_id : r'.event_id ≡ r.event_id
    pub same_shipment_id : r'.shipment_id ≡ r.shipment_id
    pub same_type : r'.event_type ≡ r.event_type
    pub same_payload : r'.payload ≡ r.payload
    pub same_created_at : r'.created_at ≡ r.created_at

  mark_row-SameEvent :
      (now : Time) (ids : List EventId) (r : OutboxRow P) → SameEvent r (mark_row now ids r)
  unfolding mark_row
  mark_row-SameEvent now ids r = ground arith

  note_row-SameEvent : (id : EventId) (e : Error) (r : OutboxRow P) → SameEvent r (note_row id e r)
  unfolding note_row
  note_row-SameEvent id e r = ground arith

  -- A table after the UPDATEs of one result.
  unfoldable pub written : Network → PublishResult → List (OutboxRow P) → List (OutboxRow P)
  written n result rows =
      let marked = mark_published n.now result.published rows in
      if not (str_eq result.failed "")
      then record_failure result.failed result.error marked
      else marked

  mark_published-none : (now : Time) (rows : List (OutboxRow P)) → mark_published now [] rows ≡ rows
  unfolding mark_published mark_row
  mark_published-none now [] = refl
  mark_published-none now (r ∷ rows) = ap (λ l. r ∷ l) (mark_published-none now rows)

  record_published_ok :
      (n : Network) (result : PublishResult) (db after : Db P)
      → record_published n result db ≡ ok after
      → after ≡ record db { outbox = mark_published n.now result.published db.outbox }
  unfolding record_published
  record_published_ok n result db after h = by_ids result.published refl
    where
      by_ids :
          (ids : List EventId)
          → result.published ≡ ids
          → after ≡ record db { outbox = mark_published n.now result.published db.outbox }
      by_ids [] e = ground (arith, mark_published-none n.now db.outbox)
      by_ids (id ∷ ids) e = ground arith

  record_failed_ok :
      (n : Network) (result : PublishResult) (db after : Db P)
      → record_failed n result db ≡ ok after
      → after ≡ record db {
        outbox =
            if not (str_eq result.failed "")
            then record_failure result.failed result.error db.outbox
            else db.outbox;
      }
  unfolding record_failed
  record_failed_ok n result db after h = ground arith

  pub record_result_ok :
      (n : Network) (result : PublishResult) (db after : Db P) {v : PublishResult}
      → record_result n result db ≡ ok (v, after)
      → (v ≡ result) × (after ≡ record db { outbox = written n result db.outbox })
  unfolding record_result written
  record_result_ok n result db after h =
      let (marked, at_mark, h1) = >>=-eq-ok (record_published n result db) _ h in
      let (noted, at_note, h2) = >>=-eq-ok (record_failed n result marked) _ h1 in
      let m = record_published_ok n result db marked at_mark in
      let f = record_failed_ok n result marked noted at_note in (ground arith, ground arith)

  pub written-no_result :
      (n : Network) (rows : List (OutboxRow P)) → written n no_result rows ≡ rows
  unfolding written
  written-no_result n rows = rw (str_eq_refl "") (mark_published-none n.now rows)

  lookup-mark_published :
      (now : Time) (ids : List EventId) (id : EventId) (rows : List (OutboxRow P))
      → lookup_by outbox_key id (mark_published now ids rows)
        ≡ on_some (mark_row now ids) (lookup_by outbox_key id rows)
  unfolding mark_published mark_row
  lookup-mark_published now ids id [] = refl
  lookup-mark_published now ids id (r ∷ rows) =
      ground (arith, lookup-mark_published now ids id rows)

  lookup-record_failure :
      (failed : EventId) (e : Error) (id : EventId) (rows : List (OutboxRow P))
      → lookup_by outbox_key id (record_failure failed e rows)
        ≡ on_some (note_row failed e) (lookup_by outbox_key id rows)
  unfolding record_failure note_row
  lookup-record_failure failed e id [] = refl
  lookup-record_failure failed e id (r ∷ rows) =
      ground (arith, lookup-record_failure failed e id rows)

  -- The row of one event after the UPDATEs.
  unfoldable pub written_row : Network → PublishResult → OutboxRow P → OutboxRow P
  written_row n result r =
      let marked = mark_row n.now result.published r in
      if not (str_eq result.failed "") then note_row result.failed result.error marked else marked

  pub lookup-written :
      (n : Network) (result : PublishResult) (id : EventId) (rows : List (OutboxRow P))
      → lookup_by outbox_key id (written n result rows)
        ≡ on_some (written_row n result) (lookup_by outbox_key id rows)
  unfolding written written_row
  lookup-written n result id rows = ground (
    arith,
    lookup-mark_published n.now result.published id rows,
    lookup-record_failure result.failed result.error id
        (mark_published n.now result.published rows),
  )

  -- A pending row is published by the UPDATEs exactly when its event is among the acknowledged ones.
  pub written_row_published :
      (n : Network) (result : PublishResult) (r : OutboxRow P)
      → r.published_at ≡ none
      → (written_row n result r).published_at
        ≡ (if contains_id r.event_id result.published then some n.now else none)
  unfolding written_row mark_row note_row
  written_row_published n result r pending = ground arith

  -- The table keeps its events and their shipments, in order.
  abbrev pub SameTable : List (OutboxRow P) → List (OutboxRow P) → Type 0
  SameTable [] [] = Unit
  SameTable [] (r' ∷ rows') = ⊥
  SameTable (r ∷ rows) [] = ⊥
  SameTable (r ∷ rows) (r' ∷ rows') = SameEvent r r' × SameTable rows rows'

  mark_published-SameTable :
      (now : Time) (ids : List EventId) (rows : List (OutboxRow P))
      → SameTable rows (mark_published now ids rows)
  unfolding mark_published
  mark_published-SameTable now ids [] = tt
  mark_published-SameTable now ids (r ∷ rows) =
      (mark_row-SameEvent now ids r, mark_published-SameTable now ids rows)

  record_failure-SameTable :
      (id : EventId) (e : Error) (rows : List (OutboxRow P))
      → SameTable rows (record_failure id e rows)
  unfolding record_failure
  record_failure-SameTable id e [] = tt
  record_failure-SameTable id e (r ∷ rows) =
      (note_row-SameEvent id e r, record_failure-SameTable id e rows)

  SameEvent-trans : (r s t : OutboxRow P) → SameEvent r s → SameEvent s t → SameEvent r t
  SameEvent-trans r s t p q = record {
    same_event_id = q.same_event_id ∙ p.same_event_id;
    same_shipment_id = q.same_shipment_id ∙ p.same_shipment_id;
    same_type = q.same_type ∙ p.same_type;
    same_payload = q.same_payload ∙ p.same_payload;
    same_created_at = q.same_created_at ∙ p.same_created_at;
  }

  SameTable-trans :
      (xs ys zs : List (OutboxRow P)) → SameTable xs ys → SameTable ys zs → SameTable xs zs
  SameTable-trans [] [] zs p q = q
  SameTable-trans [] (y ∷ ys) zs p q = absurd p
  SameTable-trans (x ∷ xs) [] zs p q = absurd p
  SameTable-trans (x ∷ xs) (y ∷ ys) [] p q = absurd q
  SameTable-trans (x ∷ xs) (y ∷ ys) (z ∷ zs) p q =
      (SameEvent-trans x y z p.0 q.0, SameTable-trans xs ys zs p.1 q.1)

  pub written-SameTable :
      (n : Network) (result : PublishResult) (rows : List (OutboxRow P))
      → SameTable rows (written n result rows)
  unfolding written
  written-SameTable n result rows =
      let marked = mark_published n.now result.published rows in
      let m = mark_published-SameTable n.now result.published rows in
      elim (Bool-cases (str_eq result.failed "")) [
        | inl all_acked ↦ rw all_acked m
        | inr some_failed ↦ rw some_failed (
            SameTable-trans rows marked (record_failure result.failed result.error marked) m
              (record_failure-SameTable result.failed result.error marked))
      ]
