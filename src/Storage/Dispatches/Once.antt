-- ===== src/Storage/Dispatches/Once.antt =====
-- RecordDispatch: every way it can end, redelivery, and conflicts.
use empower_technical_interv.Prelude.{
  ℕ, ◌≡◌, ◌≢◌, refl, ap, ◌∙◌, ◌⊎◌, inl, inr, Bool, true, false, List, [], ◌∷◌, ◌++◌, none, some,
  arith, String, Option-cases, Bool-cases, str_eq_refl,
}
use empower_technical_interv.Prelude.Int.{pos, ◌≤ℤ◌}
use empower_technical_interv.Errors.{Error, Result, ok, err, is, unique_violation}
use empower_technical_interv.Errors.Chain.{>>=-eq-ok}
use empower_technical_interv.Domain.{
  EventId, DispatchId, Dispatch, DispatchStatus, blank_dispatch, new_dispatch_id, Time,
}
use empower_technical_interv.Storage.Tables.{
  Columns, DispatchRow, Db, Network, IsCalm, in_doubt, begin_func, exec, exec_ok, classify,
  classified,
}
use empower_technical_interv.Storage.Transactions.{begin_func-Ended}
use empower_technical_interv.Storage.Shipments.{has_shipment}
use empower_technical_interv.Storage.Outbox.{contains_id}
use empower_technical_interv.Storage.Dispatches.{
  DispatchRequest, insert_processed, insert_dispatch, clashes, conflict_or, dispatch_new,
  dispatch_body, record_dispatch,
}

pub contains_id_last : (id : EventId) (ids : List EventId) → contains_id id (ids ++ id ∷ []) ≡ true
contains_id_last id [] = ground (arith, str_eq_refl id)
contains_id_last id (x ∷ ids) = ground (arith, contains_id_last id ids)

abbrev pub dispatch_row : Time → DispatchId → DispatchRequest → String → DispatchRow
dispatch_row now id req currency = record {
  dispatch_id = id;
  shipment_id = req.shipment_id;
  event_id = req.event_id;
  amount_cents = req.amount_cents;
  currency = currency;
  dispatched_at = now;
}

abbrev pub dispatched_value : Time → DispatchId → DispatchRequest → Dispatch
dispatched_value now id req = record {
  status = DispatchStatus.dispatched;
  id = id;
  event_id = req.event_id;
  dispatched_at = now;
}

module _ {P : Type 0} (pg : Columns P) where
  -- The tables with the event marked and its dispatch, which the constraints admit.
  pub record Recorded (now : Time) (id : DispatchId) (req : DispatchRequest) (db after : Db P)
      : Type 0 where
    pub currency : String
    pub currency_ok : pg.char3 req.currency ≡ some currency
    pub amount_ok : pos 0 ≤ℤ req.amount_cents
    pub new_event : contains_id req.event_id db.processed ≡ false
    pub fresh : clashes id req.shipment_id db.dispatches ≡ false
    pub known : has_shipment req.shipment_id db ≢ none
    pub processed : after.processed ≡ db.processed ++ (req.event_id ∷ [])
    pub dispatches : after.dispatches ≡ db.dispatches ++ (dispatch_row now id req currency ∷ [])
    pub shipments : after.shipments ≡ db.shipments
    pub outbox : after.outbox ≡ db.outbox

  insert_dispatch_ok :
      (now : Time) (id : DispatchId) (req : DispatchRequest) (db after : Db P)
      → insert_dispatch pg now id req db ≡ ok after
      → (c : String) × (pg.char3 req.currency ≡ some c)
        × (pos 0 ≤ℤ req.amount_cents)
        × (clashes id req.shipment_id db.dispatches ≡ false)
        × (has_shipment req.shipment_id db ≢ none)
        × (after ≡ record db { dispatches = db.dispatches ++ (dispatch_row now id req c ∷ []) })
  unfolding insert_dispatch
  insert_dispatch_ok now id req db after h = elim (Option-cases (pg.char3 req.currency)) [
    | inl refused_currency ↦ ground arith
    | inr (c, stored) ↦ (c, stored, ground arith, ground arith, λ gone. ground arith, ground arith)
  ]

  conflict_or_ok : (r : Result (Db P)) {db : Db P} → conflict_or r ≡ ok db → r ≡ ok db
  unfolding conflict_or
  conflict_or_ok (ok db) h = h
  conflict_or_ok (err e) h = elim (Bool-cases (is unique_violation e)) [
    | inl unique ↦ ground arith
    | inr other ↦ ground arith
  ]

  dispatch_new_ok :
      (n : Network) (random : List ℕ) (req : DispatchRequest) (db after : Db P)
      {v : Dispatch × Bool}
      → dispatch_new pg n random req db ≡ ok (v, after)
      → (insert_dispatch pg n.now (new_dispatch_id random) req db ≡ ok after)
        × (v ≡ (dispatched_value n.now (new_dispatch_id random) req, false))
  unfolding dispatch_new
  dispatch_new_ok n random req db after h =
      let insert : Result (Db P) = insert_dispatch pg n.now (new_dispatch_id random) req db in
      let (mid, at_second, h1) = >>=-eq-ok (conflict_or (exec n.second insert)) _ h in
      let stored : insert ≡ ok mid =
        exec_ok n.second (conflict_or_ok (exec n.second insert) at_second) in
      (ground arith, ground arith)

  -- What the body does when it succeeds.
  abbrev BodyEnds : Network → List ℕ → DispatchRequest → Db P → Dispatch × Bool → Db P → Type 0
  BodyEnds n random req db v after =
      ((contains_id req.event_id db.processed ≡ true)
        × (after ≡ db)
        × (v ≡ (blank_dispatch DispatchStatus.unset, true)))
      ⊎ (Recorded n.now (new_dispatch_id random) req db after
          × (v ≡ (dispatched_value n.now (new_dispatch_id random) req, false)))

  dispatch_body_ok :
      (n : Network) (random : List ℕ) (req : DispatchRequest) (db after : Db P)
      (v : Dispatch × Bool)
      → dispatch_body pg n random req db ≡ ok (v, after)
      → BodyEnds n random req db v after
  unfolding dispatch_body insert_processed
  dispatch_body_ok n random req db after v h =
      elim (Bool-cases (contains_id req.event_id db.processed)) [
        | inl known ↦ inl (known, ground arith, ground arith)
        | inr new_one ↦
            let mid : Db P = record db { processed = db.processed ++ (req.event_id ∷ []) } in
            let (stored, value) = dispatch_new_ok n random req mid after (ground arith) in
            let (c, c_ok, amount, fresh, known, e) =
              insert_dispatch_ok n.now (new_dispatch_id random) req mid after stored in
            inr (
              record {
                currency = c;
                currency_ok = c_ok;
                amount_ok = amount;
                new_event = new_one;
                fresh = fresh;
                known = known;
                processed = ap (λ t. t.processed) e;
                dispatches = ap (λ t. t.dispatches) e;
                shipments = ap (λ t. t.shipments) e;
                outbox = ap (λ t. t.outbox) e;
              },
              value,
            )
      ]

  -- The caller's value, or the error of a commit in doubt.
  abbrev pub Answer : Network → Result (Dispatch × Bool) → Dispatch × Bool → Type 0
  Answer n r v = (r ≡ ok v) ⊎ ((e : Error) × (n.commit ≡ in_doubt e) × (r ≡ err (classify e)))

  -- The three ways in which RecordDispatch can end, whatever the network does: an error and no change;
  -- for an event that is already marked, no change and the duplicate flag; for a new event, the mark
  -- and one dispatch. In the last two an error means that the commit was in doubt.
  pub record_dispatch_ends :
      (n : Network) (random : List ℕ) (req : DispatchRequest) (db : Db P)
      → let (r, after) = record_dispatch pg n random req db in
        ((after ≡ db) × ((e : Error) × (r ≡ err e)))
        ⊎ ((contains_id req.event_id db.processed ≡ true)
            × (after ≡ db)
            × Answer n r (blank_dispatch DispatchStatus.unset, true))
        ⊎ (Recorded n.now (new_dispatch_id random) req db after
            × Answer n r (dispatched_value n.now (new_dispatch_id random) req, false))
  unfolding record_dispatch
  record_dispatch_ends n random req db =
      elim (begin_func-Ended n (dispatch_body pg n random req) db) [
        | inl (same_db, (e, failed)) ↦ inl (same_db, (classify e, ap classified failed))
        | inr (v, done, answer) ↦
            let after : Db P = (begin_func n (dispatch_body pg n random req) db).1 in
            elim (dispatch_body_ok n random req db after v done) [
              | inl (known, unchanged, value) ↦
                  inr (inl (known, unchanged, answered v value answer))
              | inr (recorded, value) ↦ inr (inr (recorded, answered v value answer))
            ]
      ]
    where
      answered :
          (v : Dispatch × Bool) {w : Dispatch × Bool}
          → v ≡ w
          → (((begin_func n (dispatch_body pg n random req) db).0 ≡ ok v)
              ⊎ ((e : Error) × (n.commit ≡ in_doubt e)
                  × ((begin_func n (dispatch_body pg n random req) db).0 ≡ err e)))
          → Answer n (record_dispatch pg n random req db).0 w
      answered v value (inl fine) = inl (ap classified fine ∙ ap ok value)
      answered v value (inr (e, doubt, failed)) = inr (e, doubt, ap classified failed)

  duplicate_body :
      (n : Network) (random : List ℕ) (req : DispatchRequest) (db : Db P)
      → IsCalm n
      → contains_id req.event_id db.processed ≡ true
      → dispatch_body pg n random req db ≡ ok ((blank_dispatch DispatchStatus.unset, true), db)
  unfolding dispatch_body insert_processed
  duplicate_body n random req db calm known = rw (calm.first_ok, known)

  -- An event that is already marked is reported as a duplicate and changes nothing, when the network
  -- is calm.
  pub duplicate_ignored :
      (n : Network) (random : List ℕ) (req : DispatchRequest) (db : Db P)
      → IsCalm n
      → contains_id req.event_id db.processed ≡ true
      → record_dispatch pg n random req db ≡ (ok (blank_dispatch DispatchStatus.unset, true), db)
  unfolding record_dispatch begin_func
  duplicate_ignored n random req db calm known =
      rw (calm.begin_ok, begin_func)
        (rw (duplicate_body n random req db calm known, calm.commit_ok) refl)
