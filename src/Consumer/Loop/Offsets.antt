-- ===== src/Consumer/Loop/Offsets.antt =====
-- internal/consumer/consumer.go: the offsets of the client of Run, as the group commits them and as the
-- client reads on. A commit of a record covers every record of its partition up to it.
use empower_technical_interv.Prelude.{
  ℕ, suc, ◌≤◌, ◌<◌, ◌≡◌, ◌≢◌, ◌⊎◌, Bool, true, false, List, [], ◌∷◌, none, if◌then◌else◌,
}
use empower_technical_interv.Prelude.Int.{ℤ, pos_part, eq_ℤ}
use empower_technical_interv.Errors.{ok}
use empower_technical_interv.Domain.{EventId, Dispatch}
use empower_technical_interv.Events.{Json, ShipmentCreated, decode}
use empower_technical_interv.Storage.Dispatches.{DispatchRequest}
use empower_technical_interv.Consumer.{Record}
use empower_technical_interv.Consumer.Loop.{ClientOptions, Group}

abbrev pub offset_of : {P : Type 0} → Record P → ℕ
offset_of rec = pos_part rec.offset

-- The next offset of each partition, after a record.
abbrev pub advance : {P : Type 0} → Record P → (ℤ → ℕ) → ℤ → ℕ
advance rec c p = if eq_ℤ p rec.partition then suc (offset_of rec) else c p

abbrev pub advances : {P : Type 0} → List (Record P) → (ℤ → ℕ) → ℤ → ℕ
advances [] c = c
advances (rec ∷ recs) c = advances recs (advance rec c)

module _ (j : Json) (S : Type 0) where
  -- The records of the topic; for each partition, the next offset to read, as the group has committed
  -- it and as the client has it; and the events that the store has recorded.
  pub record View : Type 1 where
    pub IsOnTopic : Record j.Payload → Type 0
    pub committed : S → ℤ → ℕ
    pub position : S → ℤ → ℕ
    pub IsMarked : EventId → S → Type 0

module _ (j : Json) {S : Type 0} (v : View j S) where
  -- Each record is the next one of its partition: none is between it and the offset before it.
  abbrev pub InOrder : (ℤ → ℕ) → List (Record j.Payload) → Type 0
  InOrder c [] = Unit
  InOrder c (rec ∷ recs) =
      ((x : Record j.Payload)
        → v.IsOnTopic x
        → x.partition ≡ rec.partition
        → c rec.partition ≤ offset_of x
        → offset_of x ≤ offset_of rec
        → x ≡ rec)
      × InOrder (advance rec c) recs

  abbrev pub Remembers : S → S → Type 0
  Remembers s t = (id : EventId) → v.IsMarked id s → v.IsMarked id t

  -- No recorded event is forgotten, and no offset moves.
  abbrev pub Keeps : S → S → Type 0
  Keeps s t = (v.committed t ≡ v.committed s) × (v.position t ≡ v.position s) × Remembers s t

  -- The positions from which the client reads on: it has them, or a rebalance has set them to the
  -- committed ones.
  abbrev pub ReadsFrom : S → (ℤ → ℕ) → Type 0
  ReadsFrom s c = (p : ℤ) → (c p ≡ v.position s p) ⊎ (c p ≡ v.committed s p)

  -- A client that does not commit by itself, blocks rebalances from a poll until they are allowed, and
  -- begins a partition at its start, in a group in which nothing else commits: a poll returns the next
  -- records of each partition; only CommitRecords commits, up to and with the given record; nothing
  -- forgets a recorded event; a call of RecordDispatch that succeeds has recorded its event.
  pub record IsKeeping (g : Group j.Payload S) : Type 0 where
    pub polls :
        (s : S)
        → let (f, t) = g.poll_records s in
          (v.committed t ≡ v.committed s)
          × Remembers s t
          × ((start : ℤ → ℕ) × ReadsFrom s start
              × InOrder start f.records
              × (v.position t ≡ advances f.records start))
    pub allows :
        (s : S)
        → (v.committed (g.allow_rebalance s) ≡ v.committed s)
          × ReadsFrom s (v.position (g.allow_rebalance s))
          × Remembers s (g.allow_rebalance s)
    pub commits :
        (d : ℤ) (rec : Record j.Payload) (s : S)
        → let (failure, t) = g.commit_records d rec s in
          ((v.committed t ≡ advance rec (v.committed s))
            ⊎ ((failure ≢ none) × (v.committed t ≡ v.committed s)))
          × (v.position t ≡ v.position s)
          × Remembers s t
    pub stores :
        (d : ℤ) (began : S) (req : DispatchRequest) (s : S)
        → Keeps s ((g.with_timeout d began).record_dispatch req s).1
    pub waits : (d : ℤ) (began : S) (w : ℤ) (s : S) → Keeps s ((g.with_timeout d began).timer w s).1
    pub marks :
        (d : ℤ) (began : S) (req : DispatchRequest) (s : S) (r : Dispatch × Bool)
        → ((g.with_timeout d began).record_dispatch req s).0 ≡ ok r
        → v.IsMarked req.event_id ((g.with_timeout d began).record_dispatch req s).1

  -- What the client library promises of a client with these options.
  abbrev pub IsClient : (ClientOptions → Group j.Payload S) → Type 0
  IsClient connect =
      (o : ClientOptions)
      → o.auto_commit ≡ false
      → o.block_rebalance_on_poll ≡ true
      → o.reset_to_start ≡ true
      → IsKeeping (connect o)

  abbrev pub IsHandled : S → Record j.Payload → Type 0
  IsHandled s rec =
      (evt : ShipmentCreated) × (decode j rec.value ≡ ok evt) × v.IsMarked evt.event_id s

  -- Every record of the topic before the committed offset of its partition has its event recorded.
  abbrev pub IsSafe : S → Type 0
  IsSafe s =
      (x : Record j.Payload)
      → v.IsOnTopic x
      → offset_of x < v.committed s x.partition
      → IsHandled s x

  -- The client reads on from offsets that are committed.
  abbrev pub IsCaughtUp : S → Type 0
  IsCaughtUp s = (p : ℤ) → v.position s p ≤ v.committed s p
