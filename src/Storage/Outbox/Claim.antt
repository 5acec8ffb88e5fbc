-- ===== src/Storage/Outbox/Claim.antt =====
-- internal/storage/store.go: the batch that the SELECT of ProcessPending hands to the publisher.
use empower_technical_interv.Prelude.{
  ℕ, zero, suc, ◌≤◌, ◌≡◌, refl, ap, ◌∙◌, sym, inl, inr, Bool, false, not, ◌&&◌, List, [], ◌∷◌, map,
  none, some, arith, str_eq, str_eq_iff, str_eq_refl, Bool-cases, lookup_by, All, All-mono,
  Distinct, leb, length, select, take, length-take-le,
}
use empower_technical_interv.Prelude.Int.{ℤ, pos, negsuc, pos_part}
use empower_technical_interv.Errors.{ok}
use empower_technical_interv.Domain.{EventId}
use empower_technical_interv.Storage.Tables.{OutboxRow, Db, Network}
use empower_technical_interv.Storage.Invariant.{outbox_key}
use empower_technical_interv.Storage.Shipments.{OutboxEvent}
use empower_technical_interv.Storage.Outbox.{
  is_pending, insert_by_time, order_by_time, outbox_event, claimable, claim_pending,
}

module _ {P : Type 0} where
  module _ (Q : OutboxRow P → Type 0) where
    All-select :
        (p : OutboxRow P → Bool) (rows : List (OutboxRow P)) → All Q rows → All Q (select p rows)
    All-select p [] h = tt
    All-select p (r ∷ rows) h = elim (Bool-cases (p r)) [
      | inl keep ↦ rw (keep, select) (h.0, All-select p rows h.1)
      | inr drop ↦ rw (drop, select) (All-select p rows h.1)
    ]

    All-insert_by_time :
        (r : OutboxRow P) (rows : List (OutboxRow P))
        → Q r
        → All Q rows
        → All Q (insert_by_time r rows)
    unfolding insert_by_time
    All-insert_by_time r [] q h = (q, tt)
    All-insert_by_time r (x ∷ rows) q h = elim (Bool-cases (leb r.created_at x.created_at)) [
      | inl earlier ↦ rw (earlier, insert_by_time) (q, h)
      | inr later ↦ rw (later, insert_by_time) (h.0, All-insert_by_time r rows q h.1)
    ]

    All-order_by_time : (rows : List (OutboxRow P)) → All Q rows → All Q (order_by_time rows)
    unfolding order_by_time
    All-order_by_time [] h = tt
    All-order_by_time (r ∷ rows) h =
        All-insert_by_time r (order_by_time rows) h.0 (All-order_by_time rows h.1)

    All-take : (k : ℕ) (rows : List (OutboxRow P)) → All Q rows → All Q (take k rows)
    All-take zero rows h = tt
    All-take (suc k) [] h = tt
    All-take (suc k) (r ∷ rows) h = (h.0, All-take k rows h.1)

  abbrev pub IsClaimable : (EventId → Bool) → OutboxRow P → Type 0
  IsClaimable is_locked r = (r.published_at ≡ none) × (is_locked r.event_id ≡ false)

  select-IsClaimable :
      (is_locked : EventId → Bool) (rows : List (OutboxRow P))
      → All (IsClaimable is_locked) (select (λ r. is_pending r && not (is_locked r.event_id)) rows)
  select-IsClaimable is_locked [] = tt
  select-IsClaimable is_locked (r ∷ rows) =
      elim (Bool-cases (is_pending r && not (is_locked r.event_id))) [
        | inl keep ↦ rw (keep, select) (ground arith, select-IsClaimable is_locked rows)
        | inr drop ↦ rw (drop, select) (select-IsClaimable is_locked rows)
      ]

  -- Creation times do not fall along the list.
  abbrev pub IsOrdered : List (OutboxRow P) → Type 0
  IsOrdered [] = Unit
  IsOrdered (r ∷ rows) = All (λ x. r.created_at ≤ x.created_at) rows × IsOrdered rows

  insert_by_time-IsOrdered :
      (r : OutboxRow P) (rows : List (OutboxRow P))
      → IsOrdered rows
      → IsOrdered (insert_by_time r rows)
  unfolding insert_by_time
  insert_by_time-IsOrdered r [] h = (tt, tt)
  insert_by_time-IsOrdered r (x ∷ rows) h = elim (Bool-cases (leb r.created_at x.created_at)) [
    | inl earlier ↦
        rw (earlier, insert_by_time)
          ((ground arith, All-mono _ _ (λ y le. ground arith) rows h.0), h)
    | inr later ↦
        rw (later, insert_by_time)
          (
            All-insert_by_time (λ y. x.created_at ≤ y.created_at) r rows (ground arith) h.0,
            insert_by_time-IsOrdered r rows h.1,
          )
  ]

  order_by_time-IsOrdered : (rows : List (OutboxRow P)) → IsOrdered (order_by_time rows)
  unfolding order_by_time
  order_by_time-IsOrdered [] = tt
  order_by_time-IsOrdered (r ∷ rows) =
      insert_by_time-IsOrdered r (order_by_time rows) (order_by_time-IsOrdered rows)

  take-IsOrdered : (k : ℕ) (rows : List (OutboxRow P)) → IsOrdered rows → IsOrdered (take k rows)
  take-IsOrdered zero rows h = tt
  take-IsOrdered (suc k) [] h = tt
  take-IsOrdered (suc k) (r ∷ rows) h =
      (All-take (λ x. r.created_at ≤ x.created_at) k rows h.0, take-IsOrdered k rows h.1)

  -- A row of a table with distinct keys is the one that its key finds.
  abbrev pub IsRowOf : List (OutboxRow P) → OutboxRow P → Type 0
  IsRowOf table r = lookup_by outbox_key r.event_id table ≡ some r

  pub All-IsRowOf : (rows : List (OutboxRow P)) → Distinct outbox_key rows → All (IsRowOf rows) rows
  All-IsRowOf [] d = tt
  All-IsRowOf (r ∷ rows) d = (
    ground (arith, str_eq_refl r.event_id),
    All-mono (IsRowOf rows) (IsRowOf (r ∷ rows)) later rows (All-IsRowOf rows d.1),
  )
    where
      later : (x : OutboxRow P) → IsRowOf rows x → IsRowOf (r ∷ rows) x
      later x h = elim (Bool-cases (str_eq r.event_id x.event_id)) [
        | inr other ↦ rw (other, lookup_by) h
        | inl same ↦ absurd (clash ((str_eq_iff r.event_id x.event_id).0 same) h)
      ]
        where
          clash : r.event_id ≡ x.event_id → IsRowOf rows x → ⊥
          clash e found = cc (sym d.0 ∙ ap (λ k. lookup_by outbox_key k rows) e ∙ found)

  All-claimable :
      (Q : OutboxRow P → Type 0) (is_locked : EventId → Bool) (rows : List (OutboxRow P))
      → All Q rows
      → All Q (claimable is_locked rows)
  unfolding claimable
  All-claimable Q is_locked rows h =
      All-order_by_time Q (select (λ r. is_pending r && not (is_locked r.event_id)) rows)
        (All-select Q (λ r. is_pending r && not (is_locked r.event_id)) rows h)

  claimable-IsClaimable :
      (is_locked : EventId → Bool) (rows : List (OutboxRow P))
      → All (IsClaimable is_locked) (claimable is_locked rows)
  unfolding claimable
  claimable-IsClaimable is_locked rows =
      All-order_by_time (IsClaimable is_locked)
        (select (λ r. is_pending r && not (is_locked r.event_id)) rows)
        (select-IsClaimable is_locked rows)

  claimable-IsOrdered :
      (is_locked : EventId → Bool) (rows : List (OutboxRow P))
      → IsOrdered (claimable is_locked rows)
  unfolding claimable
  claimable-IsOrdered is_locked rows =
      order_by_time-IsOrdered (select (λ r. is_pending r && not (is_locked r.event_id)) rows)

  -- A claimed batch and the rows that it was read from.
  pub record Claimed (n : Network) (limit : ℕ) (db : Db P) (batch : List (OutboxEvent P))
      : Type 0 where
    pub rows : List (OutboxRow P)
    pub batch_ok : batch ≡ map outbox_event rows
    pub from_table : All (IsRowOf db.outbox) rows
    pub pending : All (IsClaimable n.is_locked) rows
    pub ordered : IsOrdered rows
    pub bounded : length rows ≤ limit

  -- A claimed batch is read from rows of the table that are pending and that no other transaction has
  -- locked; they are in the order of their creation, and no more than the limit, which is positive or
  -- zero. A negative limit claims nothing.
  pub claim_pending_lem :
      (n : Network) (limit : ℤ) (db : Db P) (batch : List (OutboxEvent P))
      → Distinct outbox_key db.outbox
      → claim_pending n limit db ≡ ok batch
      → (limit ≡ pos (pos_part limit)) × Claimed n (pos_part limit) db batch
  unfolding claim_pending
  claim_pending_lem n (negsuc k) db batch d h = cc
  claim_pending_lem n (pos limit) db batch d h = (
    refl,
    record {
      rows = take limit (claimable n.is_locked db.outbox);
      batch_ok = ground arith;
      from_table =
          All-take (IsRowOf db.outbox) limit (claimable n.is_locked db.outbox)
            (All-claimable (IsRowOf db.outbox) n.is_locked db.outbox (All-IsRowOf db.outbox d));
      pending =
          All-take (IsClaimable n.is_locked) limit (claimable n.is_locked db.outbox)
            (claimable-IsClaimable n.is_locked db.outbox);
      ordered =
          take-IsOrdered limit (claimable n.is_locked db.outbox)
            (claimable-IsOrdered n.is_locked db.outbox);
      bounded = length-take-le limit (claimable n.is_locked db.outbox);
    },
  )
