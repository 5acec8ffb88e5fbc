-- ===== src/Api.antt =====
-- internal/shipmentapi: the handlers of the gRPC service (server.go) and the request log
-- (interceptors.go). The pricing service is the parameter `pricer`.
pub mod Statuses
pub mod Requests
use empower_technical_interv.Prelude.{
  ℕ, Bool, true, false, ◌||◌, List, [], ◌∷◌, ◌++◌, Option, none, some, if◌then◌else◌, String,
  str_eq,
}
use empower_technical_interv.Prelude.Int.{ℤ}
use empower_technical_interv.Errors.{
  Error, Code, Cause, ok_code, canceled_code, invalid_argument, deadline_code, not_found_code,
  internal, unavailable, unknown_code, is, grpc_status, invalid_weight, not_found, canceled,
  deadline_exceeded, pricing_rejected, pricing_timeout, pricing_unavailable, db_unavailable, Result,
  ok, err,
}
use empower_technical_interv.Domain.{
  Time, ShipmentId, Money, Shipment, OutboxStatus, DispatchStatus, Dispatch, blank_dispatch,
  ShipmentView, new_shipment_id, validate_weight,
}
use empower_technical_interv.Events.{Json, new_shipment_created, encode}
use empower_technical_interv.Storage.Tables.{Columns, Db, Network}
use empower_technical_interv.Storage.Shipments.{OutboxEvent, create_shipment, get_shipment}

-- The messages of the service, with the fields of the proto file.
pub record ProtoMoney : Type 0 where
  pub amount_cents : ℤ
  pub currency : String

pub data ProtoOutboxStatus : Type 0 where
  outbox_unspecified outbox_pending outbox_published : ProtoOutboxStatus

pub data ProtoDispatchStatus : Type 0 where
  dispatch_unspecified dispatch_pending dispatch_dispatched : ProtoDispatchStatus

-- A timestamp that is not set is `none`.
pub record ProtoDispatch : Type 0 where
  pub status : ProtoDispatchStatus
  pub dispatch_id : String
  pub event_id : String
  pub dispatched_at : Option Time

pub record ProtoShipment : Type 0 where
  pub shipment_id : String
  pub weight_grams : ℤ
  pub price : ProtoMoney
  pub created_at : Time
  pub outbox_status : ProtoOutboxStatus
  pub dispatch : ProtoDispatch

unfoldable pub to_proto_money : Money → ProtoMoney
to_proto_money m = record { amount_cents = m.amount_cents; currency = m.currency }

unfoldable pub to_proto_outbox_status : OutboxStatus → ProtoOutboxStatus
to_proto_outbox_status OutboxStatus.pending = outbox_pending
to_proto_outbox_status OutboxStatus.published = outbox_published
to_proto_outbox_status OutboxStatus.unset = outbox_unspecified

abbrev blank_proto : ProtoDispatchStatus → ProtoDispatch
blank_proto s = record { status = s; dispatch_id = ""; event_id = ""; dispatched_at = none }

unfoldable pub to_proto_dispatch : Dispatch → ProtoDispatch
to_proto_dispatch d = elim d.status [
  | DispatchStatus.dispatched ↦ record {
    status = dispatch_dispatched;
    dispatch_id = d.id;
    event_id = d.event_id;
    dispatched_at = some d.dispatched_at;
  }
  | DispatchStatus.pending ↦ blank_proto dispatch_pending
  | DispatchStatus.unset ↦ blank_proto dispatch_unspecified
]

unfoldable pub to_proto_shipment : ShipmentView → ProtoShipment
to_proto_shipment v = record {
  shipment_id = v.shipment.id;
  weight_grams = v.shipment.weight_grams;
  price = to_proto_money v.shipment.price;
  created_at = v.shipment.created_at;
  outbox_status = to_proto_outbox_status v.outbox;
  dispatch = to_proto_dispatch v.dispatch;
}

-- The status that status.FromError finds in a chain.
unfoldable pub status_in : Error → Option Code
status_in [] = none
status_in (grpc_status c ∷ e) = some c
status_in (_ ∷ e) = status_in e

-- The cases of toStatus, in their order.
unfoldable pub code_of : Error → Code
code_of e =
    if is invalid_weight e || is pricing_rejected e
    then invalid_argument
    else if is not_found e
    then not_found_code
    else if is canceled e
    then canceled_code
    else if is pricing_timeout e || is deadline_exceeded e
    then deadline_code
    else if is pricing_unavailable e || is db_unavailable e
    then unavailable
    else internal

unfoldable pub to_status : Error → Error
to_status e = elim (status_in e) [ some c ↦ e | none ↦ grpc_status (code_of e) ∷ [] ]

-- status.Code of an error.
unfoldable pub status_code : Error → Code
status_code e = elim (status_in e) [ some c ↦ c | none ↦ unknown_code ]

-- What a handler answers: the message, or the status, with the error that it logs as internal.
pub record Failure : Type 0 where
  pub status : Error
  pub logged : Option Error

abbrev pub is_internal : Code → Bool
is_internal internal = true
is_internal _ = false

unfoldable pub fail : Error → Failure
fail e =
    let st = to_status e in
    record { status = st; logged = if is_internal (status_code st) then some e else none }

pub data Response {ℓ} (A : Type ℓ) : Type ℓ where
  replies : A → Response A
  fails : Failure → Response A

pub data Level : Type 0 where
  level_info level_warn level_error : Level

unfoldable pub log_level : Code → Level
log_level ok_code = level_info
log_level invalid_argument = level_warn
log_level not_found_code = level_warn
log_level canceled_code = level_warn
log_level _ = level_error

-- Pricer: the answer, and the state of the world after the call.
abbrev pub Pricer : Type 0 → Type 0
Pricer W = ℤ → W → Result Money × W

-- quote
unfoldable pub quote_parcel : {W : Type 0} → Pricer W → ℤ → W → Result Money × W
quote_parcel pricer weight w = elim (validate_weight weight) [
  | some e ↦ (err e, w)
  | none ↦ pricer weight w
]

unfoldable pub get_quote : {W : Type 0} → Pricer W → ℤ → W → Response ProtoMoney × W
get_quote pricer weight w =
    let (r, w') = quote_parcel pricer weight w in
    (elim r [ err e ↦ fails (fail e) | ok price ↦ replies (to_proto_money price) ], w')

module _ (j : Json) where
  -- newOutboxEvent, on the random bytes of the event's ID
  unfoldable pub new_outbox_event : List ℕ → Shipment → String → Result (OutboxEvent j.Payload)
  new_outbox_event random s correlation =
      let evt = new_shipment_created random s correlation in
      elim (encode j evt) [
        | err e ↦ err e
        | ok payload ↦ ok (record {
          event_id = evt.event_id;
          shipment_id = s.id;
          event_type = evt.event_type;
          payload = payload;
          created_at = 0;
          attempts = 0;
        })
      ]

  abbrev pub created_view : Shipment → ShipmentView
  created_view s = record {
    shipment = s;
    outbox = OutboxStatus.pending;
    dispatch = blank_dispatch DispatchStatus.pending;
  }

  -- What the handler reads besides the request: the clock, the random bytes of the two IDs, and the
  -- correlation ID of the context.
  pub record Call : Type 0 where
    pub now : Time
    pub shipment_bytes : List ℕ
    pub event_bytes : List ℕ
    pub correlation_id : String

  abbrev pub shipment_of : Call → ℤ → Money → Shipment
  shipment_of c weight price = record {
    id = new_shipment_id c.shipment_bytes;
    weight_grams = weight;
    price = price;
    created_at = c.now;
  }

  -- CreateShipment once the parcel has a price.
  unfoldable pub create_priced :
      Columns j.Payload
      → Network
      → Call
      → ℤ
      → Money
      → Db j.Payload
      → Response ProtoShipment × Db j.Payload
  create_priced pg n c weight price db =
      let s = shipment_of c weight price in
      elim (new_outbox_event c.event_bytes s c.correlation_id) [
        | err e ↦ (fails (fail e), db)
        | ok evt ↦
            let (stored, db') = create_shipment pg n s evt db in
            elim stored [
              | err e ↦ (fails (fail e), db')
              | ok done ↦ (replies (to_proto_shipment (created_view s)), db')
            ]
      ]

  abbrev pub after_price :
      {W : Type 0}
      → Columns j.Payload
      → Network
      → Call
      → ℤ
      → Db j.Payload
      → Result Money × W
      → Response ProtoShipment × Db j.Payload × W
  after_price pg n c weight db (err e, w) = (fails (fail e), db, w)
  after_price pg n c weight db (ok price, w) =
      let (reply, db') = create_priced pg n c weight price db in (reply, db', w)

  unfoldable pub handle_create :
      {W : Type 0}
      → Pricer W
      → Columns j.Payload
      → Network
      → Call
      → ℤ
      → Db j.Payload
      → W
      → Response ProtoShipment × Db j.Payload × W
  handle_create pricer pg n c weight db w =
      after_price pg n c weight db (quote_parcel pricer weight w)

  -- GetShipment
  unfoldable pub handle_get : Option Error → ShipmentId → Db j.Payload → Response ProtoShipment
  handle_get fault id db =
      if str_eq id ""
      then fails (record { status = grpc_status invalid_argument ∷ []; logged = none })
      else elim (get_shipment fault id db) [
        | err e ↦ fails (fail e)
        | ok v ↦ replies (to_proto_shipment v)
      ]

-- Interceptor: the counter of the method and the code goes up, the line has the code's level, and the
-- answer passes through.
pub record RequestLog : Type 0 where
  pub requests : List (String × Code)
  pub lines : List (Level × Code)

unfoldable pub intercept : {A : Type 0} → String → Result A → RequestLog → Result A × RequestLog
intercept method (ok a) log = (
  ok a,
  record {
    requests = (method, ok_code) ∷ log.requests;
    lines = (log_level ok_code, ok_code) ∷ log.lines;
  },
)
intercept method (err e) log = (
  err e,
  record {
    requests = (method, status_code e) ∷ log.requests;
    lines = (log_level (status_code e), status_code e) ∷ log.lines;
  },
)
