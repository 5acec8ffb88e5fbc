-- ===== src/Correlation/Identity.antt =====
-- internal/correlation/correlation.go: the ID that the handler and the caller get.
use empower_technical_interv.Prelude.{
  ℕ, ◌≡◌, ◌≢◌, refl, List, arith, str_eq, str_eq_iff, Bool-cases, inl, inr, if◌then◌else◌,
}
use empower_technical_interv.Domain.{new_correlation_id}
use empower_technical_interv.Domain.Ids.{new_correlation_id-ne-empty}
use empower_technical_interv.Correlation.{
  Context, metadata_key, with_id, from_context, from_incoming_metadata, identify,
}

-- The handler runs with a correlation ID that is not empty: the one of the request's metadata, if it has
-- one, and else a new one. The response header tells the caller the same ID.
pub identify_lem :
    (random : List ℕ) (ctx : Context)
    → let (header, ctx') = identify random ctx in
      (header ≡ (metadata_key, from_context ctx'))
      × (from_context ctx' ≢ "")
      × ((from_incoming_metadata ctx ≢ "") → from_context ctx' ≡ from_incoming_metadata ctx)
unfolding identify with_id from_context
identify_lem random ctx = (
  refl,
  given,
  λ named. elim (Bool-cases (str_eq (from_incoming_metadata ctx) "")) [
    | inl empty ↦ absurd (named ((str_eq_iff (from_incoming_metadata ctx) "").0 empty))
    | inr other ↦ rw other refl
  ],
)
  where
    given :
        (if str_eq (from_incoming_metadata ctx) ""
          then new_correlation_id random
          else from_incoming_metadata ctx)
        ≢ ""
    given = elim (Bool-cases (str_eq (from_incoming_metadata ctx) "")) [
      | inl empty ↦ rw empty (new_correlation_id-ne-empty random)
      | inr other ↦
          rw other (λ e. absurd (ground (arith, str_eq_iff (from_incoming_metadata ctx) "")))
    ]
