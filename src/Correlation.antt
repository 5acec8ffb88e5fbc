-- ===== src/Correlation.antt =====
-- internal/correlation/correlation.go: the correlation ID of a request.
pub mod Identity
use empower_technical_interv.Prelude.{
  ℕ, Bool, List, [], ◌∷◌, Option, none, some, if◌then◌else◌, String, str_eq, lookup_by,
}
use empower_technical_interv.Domain.{new_correlation_id}

abbrev pub metadata_key : String
metadata_key = "x-correlation-id"

-- What a context carries for this package: the ID, and the incoming metadata as its list of pairs.
pub record Context : Type 0 where
  pub correlation : Option String
  pub metadata : Option (List (String × List String))

unfoldable pub with_id : Context → String → Context
with_id ctx id = record ctx { correlation = some id }

unfoldable pub from_context : Context → String
from_context ctx = elim ctx.correlation [ none ↦ "" | some id ↦ id ]

abbrev values_of : String → List (String × List String) → List String
values_of key md = elim (lookup_by (λ p. p.0) key md) [ none ↦ [] | some p ↦ p.1 ]

unfoldable pub from_incoming_metadata : Context → String
from_incoming_metadata ctx = elim ctx.metadata [
  | none ↦ ""
  | some md ↦ elim (values_of metadata_key md) [ [] ↦ "" | id ∷ ids ↦ id ]
]

-- UnaryServerInterceptor, on the random bytes of a new ID: the response header, and the context of the
-- handler.
unfoldable pub identify : List ℕ → Context → (String × String) × Context
identify random ctx =
    let given = from_incoming_metadata ctx in
    let id = if str_eq given "" then new_correlation_id random else given in
    ((metadata_key, id), with_id ctx id)
