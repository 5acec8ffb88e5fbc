-- ===== src/Api/Statuses.antt =====
-- toStatus: which error reaches the caller as which code.
use empower_technical_interv.Prelude.{
  ◌≡◌, ◌↔◌, refl, ap, ◌∙◌, sym, false, [], ◌∷◌, Option, none, some, arith, if◌then◌else◌,
}
use empower_technical_interv.Errors.{
  Error, Code, canceled_code, deadline_code, internal, unavailable, is, same, grpc_status,
  invalid_weight, not_found, canceled, deadline_exceeded, pricing_rejected, pricing_timeout,
  pricing_unavailable, db_unavailable, ok, err,
}
use empower_technical_interv.Pricing.{Quoted, classify_transport}
use empower_technical_interv.Api.{status_in, code_of, to_status, status_code, fail, is_internal}

-- None of the sentinels that toStatus knows.
abbrev pub IsUnknown : Error → Type 0
IsUnknown e =
    (is invalid_weight e ≡ false)
    × (is pricing_rejected e ≡ false)
    × (is not_found e ≡ false)
    × (is canceled e ≡ false)
    × (is pricing_timeout e ≡ false)
    × (is deadline_exceeded e ≡ false)
    × (is pricing_unavailable e ≡ false)
    × (is db_unavailable e ≡ false)

to_status_plain : (e : Error) → status_in e ≡ none → to_status e ≡ grpc_status (code_of e) ∷ []
unfolding to_status
to_status_plain e plain = rw (plain, to_status) refl

status_code_of : (e : Error) → status_in e ≡ none → status_code (to_status e) ≡ code_of e
unfolding status_code status_in
status_code_of e plain = ap status_code (to_status_plain e plain)

IsUnknown-code : (e : Error) → code_of e ≡ internal → IsUnknown e
unfolding code_of
IsUnknown-code e h = (
  ground arith,
  ground arith,
  ground arith,
  ground arith,
  ground arith,
  ground arith,
  ground arith,
  ground arith,
)

code-IsUnknown : (e : Error) → IsUnknown e → code_of e ≡ internal
unfolding code_of
code-IsUnknown e u = ground arith

-- The caller sees Internal, and the cause is logged, for exactly the errors that carry none of the
-- sentinels that toStatus knows, among the errors that are not gRPC statuses themselves.
pub internal_iff_IsUnknown :
    (e : Error)
    → status_in e ≡ none
    → ((status_code (to_status e) ≡ internal) ↔ IsUnknown e)
      × (((fail e).logged ≡ some e) ↔ IsUnknown e)
unfolding fail
internal_iff_IsUnknown e plain =
    let code = status_code_of e plain in
    (
      (λ h. IsUnknown-code e (sym code ∙ h), λ u. code ∙ code-IsUnknown e u),
      (
        λ h. IsUnknown-code e (sym code ∙ logged_internal (status_code (to_status e)) h),
        λ u. internal_logged (status_code (to_status e)) (code ∙ code-IsUnknown e u),
      ),
    )
  where
    logged_internal : (c : Code) → (if is_internal c then some e else none) ≡ some e → c ≡ internal
    logged_internal c h = ground arith

    internal_logged : (c : Code) → c ≡ internal → (if is_internal c then some e else none) ≡ some e
    internal_logged c h = ap (λ x. if is_internal x then some e else none) h

-- The code that the caller of the API sees for an answer of the pricing client.
abbrev pub code_seen : Quoted → Option Code
code_seen (o, ok money) = none
code_seen (o, err e) = some (status_code (to_status e))

-- A request to the pricing service that gets no answer reaches the caller as Canceled if the caller gave
-- up, as DeadlineExceeded if a deadline has passed, whatever the transport reports, and as Unavailable if
-- the context is alive and the transport's own error has no sentinel that toStatus knows.
pub failed_call_is_seen_as :
    (e : Error)
    → status_in e ≡ none
    → IsUnknown e
    → (code_seen (classify_transport (some (canceled ∷ [])) e) ≡ some canceled_code)
      × (code_seen (classify_transport (some (deadline_exceeded ∷ [])) e) ≡ some deadline_code)
      × (code_seen (classify_transport none e) ≡ some unavailable)
unfolding classify_transport is same to_status status_code status_in code_of
failed_call_is_seen_as e plain unknown =
    (refl, refl, ap some (status_code_of (pricing_unavailable ∷ e) plain ∙ no_answer e unknown))
  where
    no_answer : (e : Error) → IsUnknown e → code_of (pricing_unavailable ∷ e) ≡ unavailable
    no_answer e u = ground arith
