-- ===== src/Api/Requests.antt =====
-- CreateShipment and GetShipment of the service, over the store.
use empower_technical_interv.Prelude.{
  ◌≡◌, ◌≢◌, refl, ap, ◌∙◌, sym, subst, ◌⊎◌, inl, inr, none, some, Option-cases,
}
use empower_technical_interv.Prelude.Int.{ℤ}
use empower_technical_interv.Errors.{Error, Result, ok, err}
use empower_technical_interv.Errors.Chain.{Result-cases}
use empower_technical_interv.Domain.{Money, validate_weight}
use empower_technical_interv.Events.{Json}
use empower_technical_interv.Storage.Tables.{Columns, Db, Network, in_doubt, classify}
use empower_technical_interv.Storage.Shipments.{OutboxEvent, create_shipment}
use empower_technical_interv.Storage.Shipments.Atomic.{Created, create_shipment_atomic}
use empower_technical_interv.Api.{
  Pricer, Response, replies, fails, Failure, ProtoShipment, to_proto_shipment, quote_parcel,
  new_outbox_event, Call, shipment_of, create_priced, handle_create, after_price, created_view,
  fail,
}

module _ (j : Json) (pg : Columns j.Payload) (n : Network) (c : Call j) (weight : ℤ) where
  -- The reply and the tables of a request that was fulfilled.
  abbrev pub Fulfilled : Money → Db j.Payload → Response ProtoShipment × Db j.Payload → Type 0
  Fulfilled price db (reply, db') =
      let s = shipment_of j c weight price in
      (evt : OutboxEvent j.Payload) × (new_outbox_event j c.event_bytes s c.correlation_id ≡ ok evt)
      × Created pg s evt db db'
      × (reply ≡ replies (to_proto_shipment (created_view j s)))

  -- The caller has a failure; the tables are as they were, unless the commit is in doubt.
  abbrev pub Declined : Db j.Payload → Response ProtoShipment × Db j.Payload → Type 0
  Declined db (reply, db') =
      ((f : Failure) × (reply ≡ fails f)) × ((db' ≡ db) ⊎ ((e : Error) × (n.commit ≡ in_doubt e)))

  abbrev stored_by : Money → OutboxEvent j.Payload → Db j.Payload → Result (Unit {0}) × Db j.Payload
  stored_by price evt db = create_shipment pg n (shipment_of j c weight price) evt db

  abbrev reply_to : Money → Result (Unit {0}) → Response ProtoShipment
  reply_to price stored = elim stored [
    | err e ↦ fails (fail e)
    | ok done ↦ replies (to_proto_shipment (created_view j (shipment_of j c weight price)))
  ]

  create_priced_stored :
      (price : Money) (db : Db j.Payload) (evt : OutboxEvent j.Payload)
      → new_outbox_event j c.event_bytes (shipment_of j c weight price) c.correlation_id ≡ ok evt
      → create_priced j pg n c weight price db
        ≡ (reply_to price (stored_by price evt db).0, (stored_by price evt db).1)
  unfolding create_priced
  create_priced_stored price db evt good =
      rw (good, create_priced) (by_result (stored_by price evt db).0)
    where
      by_result :
          (r : Result (Unit {0}))
          → elim r as (λ _. Response ProtoShipment × Db j.Payload) [
            | err e ↦ (fails (fail e), (stored_by price evt db).1)
            | ok done ↦ (
              replies (to_proto_shipment (created_view j (shipment_of j c weight price))),
              (stored_by price evt db).1,
            )
          ]
            ≡ (reply_to price r, (stored_by price evt db).1)
      by_result (ok done) = refl
      by_result (err e) = refl

  not_encoded :
      (price : Money) (db : Db j.Payload) (e : Error)
      → new_outbox_event j c.event_bytes (shipment_of j c weight price) c.correlation_id ≡ err e
      → create_priced j pg n c weight price db ≡ (fails (fail e), db)
  unfolding create_priced
  not_encoded price db e bad = rw (bad, create_priced) refl

  create_priced_ends :
      (price : Money) (db : Db j.Payload)
      → let r = create_priced j pg n c weight price db in Declined db r ⊎ Fulfilled price db r
  create_priced_ends price db =
      let s = shipment_of j c weight price in
      elim (Result-cases (new_outbox_event j c.event_bytes s c.correlation_id)) [
        | inr (e, bad) ↦
            subst (λ r. Declined db r ⊎ Fulfilled price db r) (sym (not_encoded price db e bad))
              (inl ((fail e, refl), inl refl))
        | inl (evt, good) ↦
            subst (λ r. Declined db r ⊎ Fulfilled price db r)
              (sym (create_priced_stored price db evt good))
              (elim (create_shipment_atomic pg n s evt db) [
                | inl (same, (e, failed)) ↦ inl ((fail e, ap (reply_to price) failed), inl same)
                | inr (made, inl fine) ↦ inr (evt, good, made, ap (reply_to price) fine)
                | inr (made, inr (e, doubt, failed)) ↦
                    inl ((fail (classify e), ap (reply_to price) failed), inr (e, doubt))
              ])
      ]

  module _ {W : Type 0} (pricer : Pricer W) (db : Db j.Payload) (w : W) where
    handled_as :
        (q : Result Money × W)
        → quote_parcel pricer weight w ≡ q
        → handle_create j pricer pg n c weight db w ≡ after_price j pg n c weight db q
    unfolding handle_create
    handled_as q same = ap (after_price j pg n c weight db) same

    handle_invalid :
        {e : Error}
        → validate_weight weight ≡ some e
        → handle_create j pricer pg n c weight db w ≡ (fails (fail e), db, w)
    unfolding quote_parcel
    handle_invalid {e} bad = handled_as (err e, w) (rw (bad, quote_parcel) refl)

    priced_by : validate_weight weight ≡ none → quote_parcel pricer weight w ≡ pricer weight w
    unfolding quote_parcel
    priced_by fine = rw (fine, quote_parcel) refl

    handle_unpriced :
        {e : Error}
        → validate_weight weight ≡ none
        → (pricer weight w).0 ≡ err e
        → handle_create j pricer pg n c weight db w ≡ (fails (fail e), db, (pricer weight w).1)
    handle_unpriced {e} fine failed =
        handled_as (err e, (pricer weight w).1)
          (priced_by fine ∙ ap (λ r. (r, (pricer weight w).1)) failed)

    handle_priced :
        {price : Money}
        → validate_weight weight ≡ none
        → (pricer weight w).0 ≡ ok price
        → handle_create j pricer pg n c weight db w ≡ (
          (create_priced j pg n c weight price db).0,
          (create_priced j pg n c weight price db).1,
          (pricer weight w).1,
        )
    handle_priced {price} fine priced =
        handled_as (ok price, (pricer weight w).1)
          (priced_by fine ∙ ap (λ r. (r, (pricer weight w).1)) priced)

  -- CreateShipment ends in one of three ways. A weight that is out of range costs no call of the pricing
  -- service and leaves the tables. Otherwise the caller has a failure and the tables are as they were,
  -- unless the commit is in doubt; or the weight is valid, the pricing service gave a price, the tables
  -- have the new shipment with that price and its event, and the reply shows the shipment as pending.
  pub create_ends :
      {W : Type 0} (pricer : Pricer W) (db : Db j.Payload) (w : W)
      → let (reply, db', w') = handle_create j pricer pg n c weight db w in
        ((validate_weight weight ≢ none)
          × ((f : Failure) × (reply ≡ fails f))
          × (db' ≡ db)
          × (w' ≡ w))
        ⊎ ((validate_weight weight ≡ none)
            × (w' ≡ (pricer weight w).1)
            × (Declined db (reply, db')
                ⊎ ((price : Money) × ((pricer weight w).0 ≡ ok price)
                    × Fulfilled price db (reply, db'))))
  create_ends pricer db w = elim (Option-cases (validate_weight weight)) [
    | inr (e, bad) ↦
        let same = handle_invalid pricer db w bad in
        inl (
          λ fine. absurd (cc),
          (fail e, ap (λ r. r.0) same),
          ap (λ r. r.1) same,
          ap (λ r. r.2) same,
        )
    | inl fine ↦ elim (Result-cases (pricer weight w).0) [
      | inr (e, failed) ↦
          let same = handle_unpriced pricer db w fine failed in
          inr
            (fine, ap (λ r. r.2) same, inl ((fail e, ap (λ r. r.0) same), inl (ap (λ r. r.1) same)))
      | inl (price, priced) ↦
          let same = handle_priced pricer db w fine priced in
          inr (
            fine,
            ap (λ r. r.2) same,
            subst
                (λ r.
                  Declined db r
                  ⊎ ((price : Money) × ((pricer weight w).0 ≡ ok price) × Fulfilled price db r))
                (sym (ap (λ r. (r.0, r.1)) same))
                (elim (create_priced_ends price db) [
                  | inl declined ↦ inl declined
                  | inr fulfilled ↦ inr (price, priced, fulfilled)
                ]),
          )
    ]
  ]
