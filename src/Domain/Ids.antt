-- ===== src/Domain/Ids.antt =====
-- internal/domain/domain.go: the new identifiers against the empty text.
use Prim.Native.String.append
use empower_technical_interv.Prelude.{ℕ, ◌≢◌, List}
use empower_technical_interv.Domain.{new_correlation_id, new_event_id, new_shipment_id}

pub new_event_id-ne-empty : (random : List ℕ) → new_event_id random ≢ ""
unfolding new_event_id
new_event_id-ne-empty random h = cc (rw append.cons at h)

pub new_shipment_id-ne-empty : (random : List ℕ) → new_shipment_id random ≢ ""
unfolding new_shipment_id
new_shipment_id-ne-empty random h = cc (rw append.cons at h)

pub new_correlation_id-ne-empty : (random : List ℕ) → new_correlation_id random ≢ ""
unfolding new_correlation_id
new_correlation_id-ne-empty random h = cc (rw append.cons at h)
