-- ===== src/System/Refines.antt =====
-- The system refines the life of each shipment.
use empower_technical_interv.Prelude.{
  ℕ, ◌≡◌, refl, ◌∙◌, sym, subst, inl, inr, List, [], ◌∷◌, Option, none, some, arith, String,
}
use empower_technical_interv.Errors.{ok}
use empower_technical_interv.Errors.Chain.{Result-cases}
use empower_technical_interv.Domain.{ShipmentId, Shipment}
use empower_technical_interv.Events.{Json, decode}
use empower_technical_interv.Broker.{KafkaRecord, Client, IsAcknowledging}
use empower_technical_interv.Storage.Tables.{Columns, Db, Network}
use empower_technical_interv.Storage.Invariant.{IsConsistent}
use empower_technical_interv.Storage.Shipments.{OutboxEvent, JoinedRow, joined_row, create_shipment}
use empower_technical_interv.Storage.Dispatches.{record_dispatch}
use empower_technical_interv.Storage.Shipments.Consistent.{create_shipment-IsConsistent}
use empower_technical_interv.Storage.Outbox.Consistent.{process_pending-IsConsistent}
use empower_technical_interv.Storage.Dispatches.Consistent.{record_dispatch-IsConsistent}
use empower_technical_interv.Api.{new_outbox_event}
use empower_technical_interv.Relay.{publish_batch}
use empower_technical_interv.Consumer.{request_of}
use empower_technical_interv.System.{
  Activity, create, relay, consume, resend, System, record_at, create_step, consume_step, proceed,
  execute,
}
use empower_technical_interv.System.Lifecycle.{
  Moves, stays, appears, is_published, is_dispatched, create_shipment-Moves, record_dispatch-Moves,
}
use empower_technical_interv.System.Publishing.{process_pending-Moves}

-- What is there stays.
abbrev pub Kept {ℓ} : {A : Type ℓ} → Option A → Option A → Type ℓ
Kept none o = Unit
Kept (some a) o = o ≡ some a

-- A shipment that is shown is shown with the same row, and keeps its stamp and its dispatch.
abbrev pub Extends : Option JoinedRow → Option JoinedRow → Type 0
Extends none v = Unit
Extends (some r) none = ⊥
Extends (some r) (some r') =
    (r'.shipment ≡ r.shipment) × Kept r.published_at r'.published_at × Kept r.dispatch r'.dispatch

Kept-refl {ℓ} : {A : Type ℓ} (o : Option A) → Kept o o
Kept-refl none = tt
Kept-refl (some a) = refl

Kept-trans {ℓ} : {A : Type ℓ} (o p q : Option A) → Kept o p → Kept p q → Kept o q
Kept-trans none p q h k = tt
Kept-trans (some a) p q h k = subst (λ x. Kept x q) h k

Extends-refl : (v : Option JoinedRow) → Extends v v
Extends-refl none = tt
Extends-refl (some r) = (refl, Kept-refl r.published_at, Kept-refl r.dispatch)

Extends-trans : (u v w : Option JoinedRow) → Extends u v → Extends v w → Extends u w
Extends-trans none v w h k = tt
Extends-trans (some r) none w h k = absurd h
Extends-trans (some r) (some s) none h k = absurd k
Extends-trans (some r) (some s) (some t) h k = (
  k.0 ∙ h.0,
  Kept-trans r.published_at s.published_at t.published_at h.1 k.1,
  Kept-trans r.dispatch s.dispatch t.dispatch h.2 k.2,
)

Moves-Extends : {v w : Option JoinedRow} → Moves v w → Extends v w
Moves-Extends (stays v) = Extends-refl v
Moves-Extends (appears s) = tt
Moves-Extends (is_published s t d) = (refl, tt, Kept-refl d)
Moves-Extends (is_dispatched s p d) = (refl, Kept-refl p, tt)

module _ (j : Json) (pg : Columns j.Payload) {W : Type 0} (k : Client j.Payload W) where
  -- Each activity is at most one move of the shipment.
  abbrev pub Follows : ShipmentId → List Activity → System j.Payload W → Type 0
  Follows id [] sys = Unit
  Follows id (a ∷ more) sys =
      Moves (joined_row id sys.db) (joined_row id (proceed j pg k a sys).db)
      × Follows id more (proceed j pg k a sys)

  -- The tables after one activity.
  abbrev Advances : ShipmentId → Db j.Payload → Db j.Payload → Type 0
  Advances id db after = Moves (joined_row id db) (joined_row id after) × IsConsistent after

  own_event :
      (random : List ℕ) (s : Shipment) (correlation : String) (evt : OutboxEvent j.Payload)
      → new_outbox_event j random s correlation ≡ ok evt
      → evt.shipment_id ≡ s.id
  unfolding new_outbox_event
  own_event random s correlation evt h = ground arith

  create_step-Advances :
      (n : Network) (random : List ℕ) (s : Shipment) (correlation : String) (db : Db j.Payload)
      (id : ShipmentId)
      → IsConsistent db
      → Advances id db (create_step j pg k n random s correlation db)
  unfolding create_step
  create_step-Advances n random s correlation db id v =
      elim (Result-cases (new_outbox_event j random s correlation)) [
        | inr (e, failed) ↦
            let same : create_step j pg k n random s correlation db ≡ db =
              rw (failed, create_step) refl in
            subst (Advances id db) (sym same) (stays (joined_row id db), v)
        | inl (evt, made) ↦
            let own = own_event random s correlation evt made in
            let ran : create_step j pg k n random s correlation db
                ≡ (create_shipment pg n s evt db).1 =
              rw (made, create_step) refl in
            subst (Advances id db) (sym ran) (
              create_shipment-Moves pg n s evt db id v own,
              create_shipment-IsConsistent pg n s evt db own v,
            )
      ]

  consume_step-Advances :
      (n : Network) (random : List ℕ) (rec : Option (KafkaRecord j.Payload)) (db : Db j.Payload)
      (id : ShipmentId)
      → IsConsistent db
      → Advances id db (consume_step j pg k n random rec db)
  unfolding consume_step
  consume_step-Advances n random none db id v = (stays (joined_row id db), v)
  consume_step-Advances n random (some rec) db id v = elim (Result-cases (decode j rec.value)) [
    | inr (e, failed) ↦
        let same : consume_step j pg k n random (some rec) db ≡ db =
          rw (failed, consume_step) refl in
        subst (Advances id db) (sym same) (stays (joined_row id db), v)
    | inl (evt, read) ↦
        let req = request_of evt in
        let ran : consume_step j pg k n random (some rec) db
            ≡ (record_dispatch pg n random req db).1 =
          rw (read, consume_step) refl in
        subst (Advances id db) (sym ran) (
          record_dispatch-Moves pg n random req db id,
          record_dispatch-IsConsistent pg n random req db v,
        )
  ]

  module _ (law : IsAcknowledging k) where
    pub proceed-Advances :
        (a : Activity) (sys : System j.Payload W) (id : ShipmentId)
        → IsConsistent sys.db
        → Advances id sys.db (proceed j pg k a sys).db
    unfolding proceed
    proceed-Advances (create n random s correlation) sys id v =
        create_step-Advances n random s correlation sys.db id v
    proceed-Advances (relay n limit) sys id v = (
      process_pending-Moves j k law n limit sys.db sys.broker id v,
      process_pending-IsConsistent (publish_batch j k) n limit sys.db sys.broker v,
    )
    proceed-Advances (consume n random i) sys id v =
        consume_step-Advances n random (record_at i (k.received sys.broker)) sys.db id v
    proceed-Advances (resend setup event) sys id v = (stays (joined_row id sys.db), v)

    -- Whatever the processes do, in whatever order and on whatever network, each activity takes a
    -- shipment along at most one move of its life: it appears with a pending event and no dispatch, its
    -- event is published, or it is dispatched. So what GetShipment reads of it at the end extends what
    -- it reads at the start: the same shipment, with the time of its publication and its dispatch, once
    -- they are set. The tables stay consistent, if they were and the client acknowledges what it has
    -- written.
    pub execute-Follows :
        (activities : List Activity) (sys : System j.Payload W) (id : ShipmentId)
        → IsConsistent sys.db
        → Follows id activities sys
          × Extends (joined_row id sys.db) (joined_row id (execute j pg k activities sys).db)
          × IsConsistent (execute j pg k activities sys).db
    unfolding execute
    execute-Follows [] sys id v = (tt, Extends-refl (joined_row id sys.db), v)
    execute-Follows (a ∷ more) sys id v =
        let (moves, kept) = proceed-Advances a sys id v in
        let next = proceed j pg k a sys in
        let (follows, extends, sound) = execute-Follows more next id kept in
        (
          (moves, follows),
          Extends-trans (joined_row id sys.db) (joined_row id next.db)
              (joined_row id (execute j pg k more next).db) (Moves-Extends moves) extends,
          sound,
        )
