-- ===== src/Storage/Dispatches/Marked.antt =====
-- internal/storage/store.go: the marks of RecordDispatch, as the consumer relies on them.
use empower_technical_interv.Prelude.{
  ℕ, ◌≡◌, ap, ◌∙◌, inl, inr, Bool, true, List, [], ◌∷◌, ◌++◌, arith,
}
use empower_technical_interv.Errors.{ok}
use empower_technical_interv.Domain.{EventId, Dispatch, new_dispatch_id}
use empower_technical_interv.Storage.Tables.{Columns, Db, Network}
use empower_technical_interv.Storage.Outbox.{contains_id}
use empower_technical_interv.Storage.Dispatches.{DispatchRequest, record_dispatch}
use empower_technical_interv.Storage.Dispatches.Once.{record_dispatch_ends}
use empower_technical_interv.Storage.Dispatches.Retry.{marked_after}

contains_id-append :
    (id : EventId) (ids more : List EventId)
    → contains_id id ids ≡ true
    → contains_id id (ids ++ more) ≡ true
contains_id-append id [] more h = absurd (cc)
contains_id-append id (x ∷ ids) more h = ground (arith, contains_id-append id ids more)

module _ {P : Type 0} (pg : Columns P) (n : Network) (random : List ℕ) where
  pub success_marks :
      (req : DispatchRequest) (db : Db P) (v : Dispatch × Bool)
      → (record_dispatch pg n random req db).0 ≡ ok v
      → contains_id req.event_id (record_dispatch pg n random req db).1.processed ≡ true
  success_marks req db v h = elim (record_dispatch_ends pg n random req db) [
    | inl (same, (e, failed)) ↦ absurd (cc)
    | inr (inl (known, same, answer)) ↦ ap (λ d. contains_id req.event_id d.processed) same ∙ known
    | inr (inr (done, answer)) ↦
        marked_after pg n.now (new_dispatch_id random) req db (record_dispatch pg n random req db).1
          done
  ]

  pub marks_stay :
      (req : DispatchRequest) (db : Db P) (id : EventId)
      → contains_id id db.processed ≡ true
      → contains_id id (record_dispatch pg n random req db).1.processed ≡ true
  marks_stay req db id h = elim (record_dispatch_ends pg n random req db) [
    | inl (same, (e, failed)) ↦ ap (λ d. contains_id id d.processed) same ∙ h
    | inr (inl (known, same, answer)) ↦ ap (λ d. contains_id id d.processed) same ∙ h
    | inr (inr (done, answer)) ↦
        ap (contains_id id) done.processed
        ∙ contains_id-append id db.processed (req.event_id ∷ []) h
  ]
