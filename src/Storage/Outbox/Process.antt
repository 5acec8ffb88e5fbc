-- ===== src/Storage/Outbox/Process.antt =====
-- ProcessPending as a whole, for any publisher: how it ends, and the tables that it leaves.
use empower_technical_interv.Prelude.{
  ◌≡◌, refl, ap, ◌∙◌, sym, subst, ◌⊎◌, inl, inr, List, [], ◌∷◌, none, some, arith, Option-cases,
}
use empower_technical_interv.Prelude.Int.{ℤ}
use empower_technical_interv.Errors.{Error, Result, ok, err}
use empower_technical_interv.Errors.Chain.{Result-cases}
use empower_technical_interv.Storage.Tables.{Db, Network, in_doubt, settle, classify, classified}
use empower_technical_interv.Storage.Transactions.{settle-Ended}
use empower_technical_interv.Storage.Shipments.{OutboxEvent}
use empower_technical_interv.Storage.Outbox.{
  PublishResult, PublishFunc, no_result, claim_pending, publish_batch, process_body,
  process_pending,
}
use empower_technical_interv.Storage.Outbox.Marks.{written, record_result_ok, written-no_result}

module _ {P W : Type 0} (publish : PublishFunc P W) where
  -- An empty batch is not published.
  abbrev pub published_batch : List (OutboxEvent P) → W → PublishResult × W
  published_batch [] w = (no_result, w)
  published_batch (evt ∷ batch) w = publish (evt ∷ batch) w

  -- How ProcessPending ends: with an error and the tables as they were, and then the publisher may have
  -- run; or with the result of the claimed batch written to the outbox.
  abbrev pub Processed : Network → ℤ → Db P → W → Result PublishResult → Db P → W → Type 0
  Processed n limit db w r after w' =
      ((after ≡ db) × ((e : Error) × (r ≡ err e)))
      ⊎ ((batch : List (OutboxEvent P)) × (claim_pending n limit db ≡ ok batch)
          × (w' ≡ (published_batch batch w).1)
          × (after ≡ record db { outbox = written n (published_batch batch w).0 db.outbox })
          × ((r ≡ ok (published_batch batch w).0)
              ⊎ ((e : Error) × (n.commit ≡ in_doubt e) × (r ≡ err (classify e)))))

  batch_ok :
      (n : Network) (db : Db P) (batch : List (OutboxEvent P)) (w : W) (v : PublishResult)
      (after : Db P)
      → (publish_batch publish n db batch w).0 ≡ ok (v, after)
      → (v ≡ (published_batch batch w).0)
        × (after ≡ record db { outbox = written n (published_batch batch w).0 db.outbox })
  unfolding publish_batch
  batch_ok n db [] w v after h = (ground arith, ground (arith, written-no_result n db.outbox))
  batch_ok n db (evt ∷ batch) w v after h =
      let result = (publish (evt ∷ batch) w).0 in record_result_ok n result db after h

  batch_world :
      (n : Network) (db : Db P) (batch : List (OutboxEvent P)) (w : W)
      → (publish_batch publish n db batch w).1 ≡ (published_batch batch w).1
  unfolding publish_batch
  batch_world n db [] w = refl
  batch_world n db (evt ∷ batch) w = refl

  -- The end of the transaction, on the body's result and the publisher's state.
  abbrev finish :
      Network → Db P → Result (PublishResult × Db P) × W → Result PublishResult × Db P × W
  finish n db (r, w') = (classified (settle n.commit db r).0, (settle n.commit db r).1, w')

  process_begun :
      (n : Network) (limit : ℤ) (db : Db P) (w : W)
      → n.begin ≡ none
      → process_pending publish n limit db w ≡ finish n db (process_body publish n limit db w)
  unfolding process_pending
  process_begun n limit db w begun =
      let ran : Result PublishResult × Db P × W = finish n db (process_body publish n limit db w) in
      ap (λ b. elim b [ some e ↦ (err (classify e), db, w) | none ↦ ran ]) begun

  process_refused :
      (n : Network) (limit : ℤ) (db : Db P) (w : W) {e : Error}
      → n.begin ≡ some e
      → process_pending publish n limit db w ≡ (err (classify e), db, w)
  unfolding process_pending
  process_refused n limit db w refused = rw (refused, process_pending)

  body_claimed :
      (n : Network) (limit : ℤ) (db : Db P) (w : W) (batch : List (OutboxEvent P))
      → claim_pending n limit db ≡ ok batch
      → process_body publish n limit db w
        ≡ ((publish_batch publish n db batch w).0, (published_batch batch w).1)
  unfolding process_body
  body_claimed n limit db w batch claimed =
      rw (claimed, process_body)
        (ap (λ x. ((publish_batch publish n db batch w).0, x)) (batch_world n db batch w))

  body_unclaimed :
      (n : Network) (limit : ℤ) (db : Db P) (w : W) {e : Error}
      → claim_pending n limit db ≡ err e
      → process_body publish n limit db w ≡ (err e, w)
  unfolding process_body
  body_unclaimed n limit db w refused = rw (refused, process_body)

  -- What the publisher may have done, also where the transaction fails.
  pub process_pending_world :
      (n : Network) (limit : ℤ) (db : Db P) (w : W)
      → let w' = (process_pending publish n limit db w).2 in
        (w' ≡ w)
        ⊎ ((batch : List (OutboxEvent P)) × (claim_pending n limit db ≡ ok batch)
            × (w' ≡ (published_batch batch w).1))
  process_pending_world n limit db w = elim (Option-cases n.begin) [
    | inr (e, refused) ↦ inl (ap (λ t. t.2) (process_refused n limit db w refused))
    | inl begun ↦
        let ran = process_begun n limit db w begun in
        elim (Result-cases (claim_pending n limit db)) [
          | inr (e, refused) ↦
              inl (ap (λ t. t.2) (ran ∙ ap (finish n db) (body_unclaimed n limit db w refused)))
          | inl (batch, claimed) ↦ inr (
            batch,
            claimed,
            ap (λ t. t.2) (ran ∙ ap (finish n db) (body_claimed n limit db w batch claimed)),
          )
        ]
  ]

  abbrev ProcessedAs : Network → ℤ → Db P → W → Result PublishResult × Db P × W → Type 0
  ProcessedAs n limit db w (r, after, w') = Processed n limit db w r after w'

  -- ProcessPending ends with an error and the tables as they were, or it has claimed a batch, published
  -- it and written the result to its rows, and then it returns that result, or an error if the commit was
  -- in doubt. That holds whatever the network does and whatever the publisher is.
  pub process_pending_ends :
      (n : Network) (limit : ℤ) (db : Db P) (w : W)
      → let (r, after, w') = process_pending publish n limit db w in
        Processed n limit db w r after w'
  process_pending_ends n limit db w = elim (Option-cases n.begin) [
    | inr (e, refused) ↦
        subst (ProcessedAs n limit db w) (sym (process_refused n limit db w refused))
          (inl (refl, (classify e, refl)))
    | inl begun ↦ elim (Result-cases (claim_pending n limit db)) [
      | inr (e, refused) ↦
          subst (ProcessedAs n limit db w)
            (sym (
              process_begun n limit db w begun
              ∙ ap (finish n db) (body_unclaimed n limit db w refused)))
            (inl (refl, (classify e, refl)))
      | inl (batch, claimed) ↦
          subst (ProcessedAs n limit db w)
            (sym (
              process_begun n limit db w begun
              ∙ ap (finish n db) (body_claimed n limit db w batch claimed)))
            (settled batch claimed)
    ]
  ]
    where
      settled :
          (batch : List (OutboxEvent P))
          → claim_pending n limit db ≡ ok batch
          → let s = settle n.commit db (publish_batch publish n db batch w).0 in
            Processed n limit db w (classified s.0) s.1 (published_batch batch w).1
      settled batch claimed = elim (settle-Ended n db (publish_batch publish n db batch w).0) [
        | inl (same, (e, failed)) ↦ inl (same, (classify e, ap classified failed))
        | inr (v, body, answer) ↦
            let s = settle n.commit db (publish_batch publish n db batch w).0 in
            let (value, after_ok) = batch_ok n db batch w v s.1 body in
            inr (batch, claimed, refl, after_ok, answered v value answer)
      ]
        where
          answered :
              (v : PublishResult)
              → v ≡ (published_batch batch w).0
              → (((settle n.commit db (publish_batch publish n db batch w).0).0 ≡ ok v)
                  ⊎ ((e : Error) × (n.commit ≡ in_doubt e)
                      × ((settle n.commit db (publish_batch publish n db batch w).0).0 ≡ err e)))
              → ((classified (settle n.commit db (publish_batch publish n db batch w).0).0
                    ≡ ok (published_batch batch w).0)
                  ⊎ ((e : Error) × (n.commit ≡ in_doubt e)
                      × (classified (settle n.commit db (publish_batch publish n db batch w).0).0
                          ≡ err (classify e))))
          answered v value (inl fine) = inl (ap classified fine ∙ ap ok value)
          answered v value (inr (e, doubt, failed)) = inr (e, doubt, ap classified failed)
