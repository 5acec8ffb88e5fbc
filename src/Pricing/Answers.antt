-- ===== src/Pricing/Answers.antt =====
-- internal/pricing/client.go: the labels, errors and prices of the answers.
use Prim.Native.String.{◌++◌ as ◌<>◌}
use empower_technical_interv.Prelude.{
  ◌≡◌, refl, ap, ◌∙◌, sym, subst, ◌↔◌, ◌⊎◌, inl, inr, true, false, ◌||◌, Option, none, some, arith,
  String, Option-cases, Bool-cases,
}
use empower_technical_interv.Prelude.Int.{ℤ, pos, eq_ℤ}
use empower_technical_interv.Errors.{
  Error, is, same, deadline_exceeded, pricing_unavailable, pricing_timeout, pricing_rejected,
  Result, ok, err,
}
use empower_technical_interv.Errors.Chain.{Result-cases}
use empower_technical_interv.Domain.{Money, validate_money}
use empower_technical_interv.Pricing.{
  QuoteOutcome, outcome_ok, outcome_rejected, outcome_unavailable, outcome_timeout,
  outcome_canceled, QuoteResponse, Transport, Quoted, classify_transport, quote_fields,
  decode_quote, read_response, header_of, request_quote, quote, QuoteMetrics, observe,
}

-- The label and the answer that belong together: the price is valid, and the error of each label has
-- the sentinel that the callers look for. Only an error of `Unbuilt` is `unavailable` without one.
abbrev pub Agree : (Error → Type 0) → Quoted → Type 0
Agree Unbuilt (outcome_ok, ok money) = validate_money money ≡ none
Agree Unbuilt (outcome_rejected, err e) = is pricing_rejected e ≡ true
Agree Unbuilt (outcome_unavailable, err e) = (is pricing_unavailable e ≡ true) ⊎ Unbuilt e
Agree Unbuilt (outcome_timeout, err e) =
    (is pricing_timeout e ≡ true) × (is deadline_exceeded e ≡ true)
Agree Unbuilt (outcome_canceled, err e) = is deadline_exceeded e ≡ false
Agree Unbuilt _ = ⊥

-- Every error that is `unavailable` has its sentinel.
abbrev Agrees : Quoted → Type 0
Agrees = Agree (λ e. ⊥)

Agrees-Agree : (Unbuilt : Error → Type 0) (q : Quoted) → Agrees q → Agree Unbuilt q
Agrees-Agree Unbuilt (outcome_ok, ok money) h = h
Agrees-Agree Unbuilt (outcome_rejected, err e) h = h
Agrees-Agree Unbuilt (outcome_unavailable, err e) (inl h) = inl h
Agrees-Agree Unbuilt (outcome_unavailable, err e) (inr h) = elim h [ ]
Agrees-Agree Unbuilt (outcome_timeout, err e) h = h
Agrees-Agree Unbuilt (outcome_canceled, err e) h = h
Agrees-Agree Unbuilt (outcome_ok, err e) h = elim h [ ]
Agrees-Agree Unbuilt (outcome_rejected, ok money) h = elim h [ ]
Agrees-Agree Unbuilt (outcome_unavailable, ok money) h = elim h [ ]
Agrees-Agree Unbuilt (outcome_timeout, ok money) h = elim h [ ]
Agrees-Agree Unbuilt (outcome_canceled, ok money) h = elim h [ ]

classify_transport-Agree :
    (context : Option Error) (e : Error) → Agrees (classify_transport context e)
unfolding classify_transport is same
classify_transport-Agree none e = inl refl
classify_transport-Agree (some c) e = elim (Bool-cases (is deadline_exceeded c)) [
  | inl late ↦ rw late (refl, late)
  | inr other ↦ rw other other
]

quote_fields-Agree : (out : QuoteResponse) → Agrees (quote_fields out)
unfolding quote_fields is same
quote_fields-Agree out = elim (Option-cases out.amount_cents) [
  | inl gone ↦ rw gone (inl refl)
  | inr (amount, there) ↦ elim (Option-cases out.currency) [
    | inl gone ↦ rw there (rw gone (inl refl))
    | inr (currency, there2) ↦
        let money : Money = record { amount_cents = amount; currency = currency } in
        elim (Option-cases (validate_money money)) [
          | inl fine ↦ rw there (rw there2 (rw fine fine))
          | inr (e, bad) ↦ rw there (rw there2 (rw bad (inl refl)))
        ]
  ]
]

module _ {B R W : Type 0} (t : Transport B R W) where
  -- An answer of the service that gives a price.
  abbrev pub IsQuote : ℤ → R → Money → Type 0
  IsQuote status raw money =
      (status ≡ pos 200)
      × (t.unmarshal raw
          ≡ ok (record { amount_cents = some money.amount_cents; currency = some money.currency }))
      × (validate_money money ≡ none)

  decode_quote-Agree : (status : ℤ) (raw : R) → Agrees (decode_quote t status raw)
  unfolding decode_quote is same
  decode_quote-Agree status raw =
      elim (Bool-cases (eq_ℤ status (pos 400) || eq_ℤ status (pos 422))) [
        | inl rejecting ↦ rw rejecting refl
        | inr other ↦ elim (Bool-cases (eq_ℤ status (pos 200))) [
          | inr unexpected ↦ rw other (rw unexpected (inl refl))
          | inl good ↦ elim (Result-cases (t.unmarshal raw)) [
            | inr (e, bad) ↦ rw other (rw good (rw bad (inl refl)))
            | inl (out, decoded) ↦ rw other (rw good (rw decoded (quote_fields-Agree out)))
          ]
        ]
      ]

  read_response-Agree : (r : Result (ℤ × Result R) × W) → Agrees (read_response t r).0
  read_response-Agree (err e, w) = classify_transport-Agree (t.context_error w) e
  read_response-Agree (ok (status, err e), w) = classify_transport-Agree (t.context_error w) e
  read_response-Agree (ok (status, ok raw), w) = decode_quote-Agree status raw

  -- The errors of a request that could not be built, which the client returns as they are.
  abbrev pub Unbuilt : String → ℤ → Error → Type 0
  Unbuilt base_url weight e =
      (t.marshal weight ≡ err e)
      ⊎ ((body : B) × (t.marshal weight ≡ ok body)
          × (t.new_request (base_url <> "/quote") body ≡ some e))

  request_quote-Agree :
      (base_url correlation : String) (weight : ℤ) (w : W)
      → Agree (Unbuilt base_url weight) (request_quote t base_url correlation weight w).0
  unfolding request_quote
  request_quote-Agree base_url correlation weight w = elim (Result-cases (t.marshal weight)) [
    | inr (e, bad) ↦
        let same : request_quote t base_url correlation weight w
            ≡ ((outcome_unavailable, err e), w) =
          rw (bad, request_quote) refl in
        subst (λ q. Agree (Unbuilt base_url weight) q.0) (sym same) (inr (inl bad))
    | inl (body, good) ↦ elim (Option-cases (t.new_request (base_url <> "/quote") body)) [
      | inr (e, bad) ↦
          let same : request_quote t base_url correlation weight w
              ≡ ((outcome_unavailable, err e), w) =
            rw (good, request_quote) (rw bad refl) in
          subst (λ q. Agree (Unbuilt base_url weight) q.0) (sym same) (inr (inr (body, good, bad)))
      | inl fine ↦
          let response =
            t.send
              (record {
                url = base_url <> "/quote";
                body = body;
                correlation_id = header_of t correlation;
              })
              w in
          let same : request_quote t base_url correlation weight w ≡ read_response t response =
            rw (good, request_quote) (rw fine refl) in
          subst (λ q. Agree (Unbuilt base_url weight) q.0) (sym same)
            (Agrees-Agree (Unbuilt base_url weight) (read_response t response).0
              (read_response-Agree response))
    ]
  ]

  -- Quote returns a price only if the domain accepts it. An error under the label `rejected` has
  -- ErrRejected in its chain, one under `unavailable` has ErrUnavailable unless the request could not be
  -- built, one under `timeout` has ErrTimeout and DeadlineExceeded, one under `canceled` does not have
  -- DeadlineExceeded, and the call is counted under that label alone.
  pub quote_agrees :
      (base_url correlation : String) (weight : ℤ) (m : QuoteMetrics) (w : W)
      → let (r, m', w') = quote t base_url correlation weight m w in
        (o : QuoteOutcome) × Agree (Unbuilt base_url weight) (o, r) × (m' ≡ observe o m)
  unfolding quote
  quote_agrees base_url correlation weight m w =
      let asked = request_quote t base_url correlation weight w in
      (asked.0.0, request_quote-Agree base_url correlation weight w, refl)

  quote_fields_ok :
      (out : QuoteResponse) (money : Money)
      → quote_fields out ≡ (outcome_ok, ok money)
      → (out ≡ record { amount_cents = some money.amount_cents; currency = some money.currency })
        × (validate_money money ≡ none)
  unfolding quote_fields
  quote_fields_ok out money h = elim (Option-cases out.amount_cents) [
    | inl gone ↦ absurd (ground arith)
    | inr (amount, there) ↦ elim (Option-cases out.currency) [
      | inl gone ↦ absurd (ground arith)
      | inr (currency, there2) ↦
          elim (Option-cases
            (validate_money (record { amount_cents = amount; currency = currency }))) [
              | inl fine ↦ (ground arith, ground arith)
              | inr (e, bad) ↦ absurd (ground arith)
            ]
    ]
  ]

  quote_fields_fine :
      (money : Money)
      → validate_money money ≡ none
      → quote_fields
          (record { amount_cents = some money.amount_cents; currency = some money.currency })
        ≡ (outcome_ok, ok money)
  unfolding quote_fields
  quote_fields_fine money fine = rw (fine, quote_fields) refl

  -- A response is a price exactly if its status is 200 and its body decodes to an amount and a currency
  -- that the domain accepts.
  pub decode_quote_iff :
      (status : ℤ) (raw : R) (money : Money)
      → (decode_quote t status raw ≡ (outcome_ok, ok money)) ↔ IsQuote status raw money
  unfolding decode_quote
  decode_quote_iff status raw money = (
    λ h. elim (Result-cases (t.unmarshal raw)) [
      | inr (e, bad) ↦ absurd (ground arith)
      | inl (out, decoded) ↦
          let fields : quote_fields out ≡ (outcome_ok, ok money) = ground arith in
          let (same, fine) = quote_fields_ok out money fields in
          (ground arith, decoded ∙ ap ok same, fine)
    ],
    λ (status_ok, decoded, fine). by_quote status_ok decoded fine,
  )
    where
      by_quote :
          status ≡ pos 200
          → t.unmarshal raw
            ≡ ok (record { amount_cents = some money.amount_cents; currency = some money.currency })
          → validate_money money ≡ none
          → decode_quote t status raw ≡ (outcome_ok, ok money)
      by_quote status_ok decoded fine =
          subst (λ z. decode_quote t z raw ≡ (outcome_ok, ok money)) (sym status_ok)
            (rw decoded (quote_fields_fine money fine))
