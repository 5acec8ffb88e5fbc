-- ===== src/Storage/Dispatches/Retry.antt =====
-- internal/storage/store.go: RecordDispatch under redelivery and for a second event of a shipment.
use empower_technical_interv.Prelude.{
  ℕ, ◌≡◌, ◌≢◌, refl, ap, ◌∙◌, sym, subst, ◌⊎◌, inl, inr, true, false, List, [], ◌∷◌, ◌++◌, none,
  some, arith, String, Option-cases, lookup_by,
}
use empower_technical_interv.Prelude.Int.{pos, ◌≤ℤ◌}
use empower_technical_interv.Errors.{ok, err, is, same, dispatch_conflict}
use empower_technical_interv.Domain.{
  DispatchId, ShipmentId, DispatchStatus, blank_dispatch, new_dispatch_id, Time,
}
use empower_technical_interv.Storage.Tables.{
  Columns, DispatchRow, Db, Network, IsCalm, begin_func, classify,
}
use empower_technical_interv.Storage.Shipments.{has_shipment}
use empower_technical_interv.Storage.Outbox.{contains_id}
use empower_technical_interv.Storage.Dispatches.{
  DispatchRequest, insert_processed, insert_dispatch, dispatch_of, clashes, conflict_or,
  dispatch_new, dispatch_body, record_dispatch,
}
use empower_technical_interv.Storage.Dispatches.Once.{
  Recorded, dispatch_row, dispatched_value, duplicate_ignored, record_dispatch_ends,
  contains_id_last,
}

-- A shipment with a dispatch clashes with every further one.
clashes_of_dispatch :
    (id : DispatchId) (shipment : ShipmentId) (ds : List DispatchRow) {d : DispatchRow}
    → lookup_by (λ r. r.shipment_id) shipment ds ≡ some d
    → clashes id shipment ds ≡ true
clashes_of_dispatch id shipment [] h = cc
clashes_of_dispatch id shipment (x ∷ ds) {d} h =
    ground (arith, clashes_of_dispatch id shipment ds {d = d})

module _ {P : Type 0} (pg : Columns P) where
  -- The constraints admit a dispatch for the request.
  pub record IsAdmissible (id : DispatchId) (req : DispatchRequest) (db : Db P) : Type 0 where
    pub amount_ok : pos 0 ≤ℤ req.amount_cents
    pub new_event : contains_id req.event_id db.processed ≡ false
    pub fresh : clashes id req.shipment_id db.dispatches ≡ false
    pub known : has_shipment req.shipment_id db ≢ none

  abbrev with_dispatch : Time → DispatchId → DispatchRequest → String → Db P → Db P
  with_dispatch now id req c db = record {
    shipments = db.shipments;
    outbox = db.outbox;
    processed = db.processed ++ (req.event_id ∷ []);
    dispatches = db.dispatches ++ (dispatch_row now id req c ∷ []);
  }

  calm_body :
      (n : Network) (random : List ℕ) (req : DispatchRequest) (db : Db P) {c : String}
      → IsCalm n
      → pg.char3 req.currency ≡ some c
      → IsAdmissible (new_dispatch_id random) req db
      → dispatch_body pg n random req db
        ≡ ok (
          (dispatched_value n.now (new_dispatch_id random) req, false),
          with_dispatch n.now (new_dispatch_id random) req c db,
        )
  unfolding dispatch_body insert_processed dispatch_new insert_dispatch conflict_or
  calm_body n random req db calm char v = elim (Option-cases (has_shipment req.shipment_id db)) [
    | inl gone ↦ absurd (v.known gone)
    | inr (s, there) ↦ ground arith
  ]

  conflict_body :
      (n : Network) (random : List ℕ) (req : DispatchRequest) (db : Db P) {c : String}
      {d : DispatchRow}
      → IsCalm n
      → pos 0 ≤ℤ req.amount_cents
      → pg.char3 req.currency ≡ some c
      → contains_id req.event_id db.processed ≡ false
      → dispatch_of req.shipment_id db ≡ some d
      → dispatch_body pg n random req db ≡ err (dispatch_conflict ∷ [])
  unfolding dispatch_body insert_processed dispatch_new insert_dispatch conflict_or is same
  conflict_body n random req db calm amount char new_one there =
      ground
        (arith, clashes_of_dispatch (new_dispatch_id random) req.shipment_id db.dispatches there)

  -- For a request that the constraints admit, on a calm network, RecordDispatch marks the event and
  -- adds its one dispatch.
  pub record_dispatch_calm :
      (n : Network) (random : List ℕ) (req : DispatchRequest) (db : Db P) {c : String}
      → IsCalm n
      → pg.char3 req.currency ≡ some c
      → IsAdmissible (new_dispatch_id random) req db
      → record_dispatch pg n random req db ≡ (
        ok (dispatched_value n.now (new_dispatch_id random) req, false),
        with_dispatch n.now (new_dispatch_id random) req c db,
      )
  unfolding record_dispatch begin_func
  record_dispatch_calm n random req db calm char v =
      rw (calm.begin_ok, begin_func)
        (rw (calm_body n random req db calm char v, calm.commit_ok) refl)

  -- Another event for a shipment that has a dispatch is refused with ErrDispatchConflict, and nothing
  -- is written, not even the mark of that event.
  pub second_event_refused :
      (n : Network) (random : List ℕ) (req : DispatchRequest) (db : Db P) {c : String}
      {d : DispatchRow}
      → IsCalm n
      → pos 0 ≤ℤ req.amount_cents
      → pg.char3 req.currency ≡ some c
      → contains_id req.event_id db.processed ≡ false
      → dispatch_of req.shipment_id db ≡ some d
      → record_dispatch pg n random req db ≡ (err (dispatch_conflict ∷ []), db)
  unfolding record_dispatch begin_func classify is same
  second_event_refused n random req db calm amount char new_one there =
      rw (calm.begin_ok, begin_func)
        (rw (conflict_body n random req db calm amount char new_one there) refl)

  module _ (n : Network) (random : List ℕ) (req : DispatchRequest) (db : Db P) {c : String}
      (calm : IsCalm n) (char : pg.char3 req.currency ≡ some c)
      (v : IsAdmissible (new_dispatch_id random) req db) where
    calm-Recorded :
        Recorded pg n.now (new_dispatch_id random) req db (record_dispatch pg n random req db).1
    calm-Recorded =
        let e = record_dispatch_calm n random req db calm char v in
        record {
          currency = c;
          currency_ok = char;
          amount_ok = v.amount_ok;
          new_event = v.new_event;
          fresh = v.fresh;
          known = v.known;
          processed = ap (λ t. t.1.processed) e;
          dispatches = ap (λ t. t.1.dispatches) e;
          shipments = ap (λ t. t.1.shipments) e;
          outbox = ap (λ t. t.1.outbox) e;
        }

  pub marked_after :
      (now : Time) (id : DispatchId) (req : DispatchRequest) (db after : Db P)
      → Recorded pg now id req db after
      → contains_id req.event_id after.processed ≡ true
  marked_after now id req db after done =
      ap (contains_id req.event_id) done.processed ∙ contains_id_last req.event_id db.processed

  -- A retry on a calm network after any first attempt, failed, in doubt or successful, ends with
  -- exactly one dispatch for the event: the first attempt's, and then the retry is a duplicate, or the
  -- retry's own, where the first attempt left nothing.
  pub retry_records_once :
      (n n' : Network) (random random' : List ℕ) (req : DispatchRequest) (db : Db P) {c : String}
      → IsCalm n'
      → pg.char3 req.currency ≡ some c
      → IsAdmissible (new_dispatch_id random') req db
      → let (r, mid) = record_dispatch pg n random req db in
        let (r', after) = record_dispatch pg n' random' req mid in
        (Recorded pg n.now (new_dispatch_id random) req db after
          × (r' ≡ ok (blank_dispatch DispatchStatus.unset, true)))
        ⊎ ((mid ≡ db)
            × Recorded pg n'.now (new_dispatch_id random') req db after
            × (r' ≡ ok (dispatched_value n'.now (new_dispatch_id random') req, false)))
  retry_records_once n n' random random' req db calm char v =
      elim (record_dispatch_ends pg n random req db) [
        | inl (untouched, failed) ↦
            let again = λ (m : Db P). record_dispatch pg n' random' req m in
            inr (
              untouched,
              subst (λ m. Recorded pg n'.now (new_dispatch_id random') req db (again m).1)
                  (sym untouched) (calm-Recorded n' random' req db calm char v),
              ap (λ m. (again m).0) untouched
                  ∙ ap (λ t. t.0) (record_dispatch_calm n' random' req db calm char v),
            )
        | inr (inl (known, unchanged, answer)) ↦ absurd (ground (arith, v.new_event))
        | inr (inr (done, answer)) ↦
            let mid : Db P = (record_dispatch pg n random req db).1 in
            let ignored =
              duplicate_ignored pg n' random' req mid calm
                (marked_after n.now (new_dispatch_id random) req db mid done) in
            inl (
              subst (Recorded pg n.now (new_dispatch_id random) req db)
                  (sym (ap (λ t. t.1) ignored)) done,
              ap (λ t. t.0) ignored,
            )
      ]
