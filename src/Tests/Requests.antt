-- ===== src/Tests/Requests.antt =====
-- The domain rules, the event, the pricing client and the service on the samples.
use empower_technical_interv.Prelude.{◌≡◌, ◌≢◌, ◌↔◌, refl, sym, ◌⊎◌, [], ◌∷◌, none, some, str_eq}
use empower_technical_interv.Prelude.Int.{pos}
use empower_technical_interv.Errors.{
  is, same, unavailable, internal, canceled, canceled_code, unsupported, deadline_exceeded,
  deadline_code, net_error, ok,
}
use empower_technical_interv.Domain.{
  Money, validate_weight, validate_money, is_currency_code, all_upper,
}
use empower_technical_interv.Events.{
  WireEvent, decode, decode_wire, decode_contract, new_shipment_created,
}
use empower_technical_interv.Events.Contract.{ReadsForeign, decode_iff, decode_err, decode-encode}
use empower_technical_interv.Events.V1.{wire_event, IsV1}
use empower_technical_interv.Events.Refusals.{IsUnsupported, IsMalformed}
use empower_technical_interv.Pricing.{
  QuoteOutcome, outcome_ok, QuoteMetrics, QuoteResponse, Transport, classify_transport, observe,
  decode_quote, quote,
}
use empower_technical_interv.Pricing.Answers.{
  Agree, Unbuilt, IsQuote, decode_quote_iff, quote_agrees,
}
use empower_technical_interv.Api.{
  Pricer, Call, fails, Failure, handle_create, status_in, to_status, status_code, fail,
}
use empower_technical_interv.Api.Statuses.{
  IsUnknown, internal_iff_IsUnknown, code_seen, failed_call_is_seen_as,
}
use empower_technical_interv.Api.Requests.{Declined, Fulfilled, create_ends}
use empower_technical_interv.Correlation.{
  Context, metadata_key, from_context, from_incoming_metadata, identify,
}
use empower_technical_interv.Correlation.Identity.{identify_lem}
use empower_technical_interv.Tests.{json, pg, calm, price, shipment, event, empty_db}

decode_iff_example :
    (decode json (wire_event event) ≡ ok event)
    ↔ ((json.unmarshal (wire_event event) ≡ some (wire_event event)) × IsV1 event)
decode_iff_example = decode_iff json (wire_event event) event

-- The event in a later version of the schema.
abbrev later_version : WireEvent
later_version = record (wire_event event) { version = some (pos 2) }

decode_err_example :
    (ReadsForeign json later_version × IsUnsupported (unsupported ∷ []))
    ⊎ ((¬ ReadsForeign json later_version) × IsMalformed (unsupported ∷ []))
unfolding decode decode_wire decode_contract str_eq
decode_err_example = decode_err json later_version (unsupported ∷ []) refl

decode-encode_example :
    decode json (wire_event (new_shipment_created (7 ∷ []) shipment "req_1"))
    ≡ ok (new_shipment_created (7 ∷ []) shipment "req_1")
unfolding validate_weight validate_money is_currency_code all_upper
decode-encode_example =
    decode-encode json (7 ∷ []) shipment "req_1" (λ e p h. sym h) (λ h. absurd (cc)) refl refl refl

internal_iff_IsUnknown_example :
    ((status_code (to_status (net_error ∷ [])) ≡ internal) ↔ IsUnknown (net_error ∷ []))
    × (((fail (net_error ∷ [])).logged ≡ some (net_error ∷ [])) ↔ IsUnknown (net_error ∷ []))
unfolding status_in
internal_iff_IsUnknown_example = internal_iff_IsUnknown (net_error ∷ []) refl

failed_call_is_seen_as_example :
    (code_seen (classify_transport (some (canceled ∷ [])) (net_error ∷ [])) ≡ some canceled_code)
    × (code_seen (classify_transport (some (deadline_exceeded ∷ [])) (net_error ∷ []))
        ≡ some deadline_code)
    × (code_seen (classify_transport none (net_error ∷ [])) ≡ some unavailable)
unfolding status_in is same
failed_call_is_seen_as_example =
    failed_call_is_seen_as (net_error ∷ []) refl (refl, refl, refl, refl, refl, refl, refl, refl)

-- A pricing service that always answers with the sample's price.
abbrev transport : Transport (Unit {0}) QuoteResponse (Unit {0})
transport = record {
  marshal = λ weight. ok tt;
  new_request = λ url body. none;
  send = λ req w.
      (ok (pos 200, ok (record { amount_cents = some (pos 1250); currency = some "EUR" })), w);
  unmarshal = λ raw. ok raw;
  context_error = λ w. none;
}

abbrev answer : QuoteResponse
answer = record { amount_cents = some (pos 1250); currency = some "EUR" }

decode_quote_iff_example :
    (decode_quote transport (pos 200) answer ≡ (outcome_ok, ok price))
    ↔ IsQuote transport (pos 200) answer price
decode_quote_iff_example = decode_quote_iff transport (pos 200) answer price

abbrev no_calls : QuoteMetrics
no_calls = record { answered = 0; rejected = 0; unreachable = 0; timed_out = 0; abandoned = 0 }

quote_agrees_example :
    let (r, m', w') = quote transport "http://pricing:8000" "req_1" (pos 500) no_calls tt in
    (o : QuoteOutcome) × Agree (Unbuilt transport "http://pricing:8000" (pos 500)) (o, r)
    × (m' ≡ observe o no_calls)
quote_agrees_example = quote_agrees transport "http://pricing:8000" "req_1" (pos 500) no_calls tt

abbrev call : Call json
call = record { now = 10; shipment_bytes = 5 ∷ []; event_bytes = 6 ∷ []; correlation_id = "req_1" }

abbrev pricer : Pricer (Unit {0})
pricer weight w = (ok price, w)

create_ends_example :
    let (reply, db', w') = handle_create json pricer pg calm call (pos 500) empty_db tt in
    ((validate_weight (pos 500) ≢ none)
      × ((f : Failure) × (reply ≡ fails f))
      × (db' ≡ empty_db)
      × (w' ≡ tt))
    ⊎ ((validate_weight (pos 500) ≡ none)
        × (w' ≡ tt)
        × (Declined json pg calm call (pos 500) empty_db (reply, db')
            ⊎ ((p : Money) × (ok price ≡ ok p)
                × Fulfilled json pg calm call (pos 500) p empty_db (reply, db'))))
create_ends_example = create_ends json pg calm call (pos 500) pricer empty_db tt

abbrev incoming : Context
incoming = record { correlation = none; metadata = some ((metadata_key, "req_9" ∷ []) ∷ []) }

identify_lem_example :
    let (header, ctx') = identify (1 ∷ []) incoming in
    (header ≡ (metadata_key, from_context ctx'))
    × (from_context ctx' ≢ "")
    × ((from_incoming_metadata incoming ≢ "") → from_context ctx' ≡ from_incoming_metadata incoming)
identify_lem_example = identify_lem (1 ∷ []) incoming
