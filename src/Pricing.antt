-- ===== src/Pricing.antt =====
-- internal/pricing/client.go: the client of the pricing service. The HTTP library and the JSON codec
-- are the parameter `Transport`, over a state `W` of the world.
pub mod Answers
use Prim.Native.String.{◌++◌ as ◌<>◌}
use empower_technical_interv.Prelude.{
  ℕ, ◌+◌, Bool, true, false, ◌||◌, not, List, [], ◌∷◌, ◌++◌, Option, none, some, if◌then◌else◌,
  String, str_eq,
}
use empower_technical_interv.Prelude.Int.{ℤ, pos, eq_ℤ}
use empower_technical_interv.Errors.{
  Error, is, canceled, deadline_exceeded, pricing_unavailable, pricing_timeout, pricing_rejected,
  Result, ok, err,
}
use empower_technical_interv.Domain.{Money, validate_money}

pub data QuoteOutcome : Type 0 where
  outcome_ok outcome_rejected outcome_unavailable outcome_timeout outcome_canceled : QuoteOutcome

-- The request counter, by its label.
pub record QuoteMetrics : Type 0 where
  pub answered : ℕ
  pub rejected : ℕ
  pub unreachable : ℕ
  pub timed_out : ℕ
  pub abandoned : ℕ

unfoldable pub observe : QuoteOutcome → QuoteMetrics → QuoteMetrics
observe outcome_ok m = record m { answered = m.answered + 1 }
observe outcome_rejected m = record m { rejected = m.rejected + 1 }
observe outcome_unavailable m = record m { unreachable = m.unreachable + 1 }
observe outcome_timeout m = record m { timed_out = m.timed_out + 1 }
observe outcome_canceled m = record m { abandoned = m.abandoned + 1 }

-- quoteResponse; `none` is an absent or null field.
pub record QuoteResponse : Type 0 where
  pub amount_cents : Option ℤ
  pub currency : Option String

-- The correlation header of a request, and what is sent.
pub record HttpRequest (B : Type 0) : Type 0 where
  pub url : String
  pub body : B
  pub correlation_id : Option String

pub record Transport (B R W : Type 0) : Type 0 where
  pub marshal : ℤ → Result B
  pub new_request : String → B → Option Error
  -- the status and the body, or the error, of http.Do
  pub send : HttpRequest B → W → Result (ℤ × Result R) × W
  pub unmarshal : R → Result QuoteResponse
  -- ctx.Err() of the context that the timeout bounds
  pub context_error : W → Option Error

-- What quote returns: the money or the error, under the label of the counter.
abbrev pub Quoted : Type 0
Quoted = QuoteOutcome × Result Money

unfoldable pub classify_transport : Option Error → Error → Quoted
classify_transport none e = (outcome_unavailable, err (pricing_unavailable ∷ e))
classify_transport (some c) e =
    if is deadline_exceeded c
    then (outcome_timeout, err (pricing_timeout ∷ c))
    else (outcome_canceled, err c)

-- The fields of a decoded body.
unfoldable pub quote_fields : QuoteResponse → Quoted
quote_fields out = elim out.amount_cents [
  | none ↦ (outcome_unavailable, err (pricing_unavailable ∷ []))
  | some amount ↦ elim out.currency [
    | none ↦ (outcome_unavailable, err (pricing_unavailable ∷ []))
    | some currency ↦
        let money : Money = record { amount_cents = amount; currency = currency } in
        elim (validate_money money) [
          | some e ↦ (outcome_unavailable, err (pricing_unavailable ∷ e))
          | none ↦ (outcome_ok, ok money)
        ]
  ]
]

module _ {B R W : Type 0} (t : Transport B R W) where
  unfoldable pub decode_quote : ℤ → R → Quoted
  decode_quote status raw =
      if eq_ℤ status (pos 400) || eq_ℤ status (pos 422)
      then (outcome_rejected, err (pricing_rejected ∷ []))
      else if not (eq_ℤ status (pos 200))
      then (outcome_unavailable, err (pricing_unavailable ∷ []))
      else elim (t.unmarshal raw) [
        | err e ↦ (outcome_unavailable, err (pricing_unavailable ∷ e))
        | ok out ↦ quote_fields out
      ]

  -- What comes of the answer of http.Do; the body is read under the same deadline.
  abbrev pub read_response : Result (ℤ × Result R) × W → Quoted × W
  read_response (err e, w) = (classify_transport (t.context_error w) e, w)
  read_response (ok (status, err e), w) = (classify_transport (t.context_error w) e, w)
  read_response (ok (status, ok raw), w) = (decode_quote status raw, w)

  abbrev pub header_of : String → Option String
  header_of correlation = if not (str_eq correlation "") then some correlation else none

  unfoldable pub request_quote : String → String → ℤ → W → Quoted × W
  request_quote base_url correlation weight w = elim (t.marshal weight) [
    | err e ↦ ((outcome_unavailable, err e), w)
    | ok body ↦ elim (t.new_request (base_url <> "/quote") body) [
      | some e ↦ ((outcome_unavailable, err e), w)
      | none ↦ read_response (
          t.send
            (record {
              url = base_url <> "/quote";
              body = body;
              correlation_id = header_of correlation;
            })
            w)
    ]
  ]

  -- Quote
  unfoldable pub quote : String → String → ℤ → QuoteMetrics → W → Result Money × QuoteMetrics × W
  quote base_url correlation weight m w =
      let ((o, r), w') = request_quote base_url correlation weight w in (r, observe o m, w')
