-- ===== src/Errors.antt =====
-- Go's error values, as the sentinels that `errors.Is`, `errors.As` and `status.FromError` can find
-- in the wrapped chain. The message texts are not modelled; `fmt.Errorf` with `%w` puts one chain in
-- front of another.
pub mod Chain
use empower_technical_interv.Prelude.{
  ℕ, ◌+◌, Bool, false, ◌||◌, List, [], ◌∷◌, ◌++◌, Option, none, some, ◌==◌,
}

-- google.golang.org/grpc/codes
pub data Code : Type 0 where
  ok_code canceled_code unknown_code invalid_argument deadline_code not_found_code already_exists
        permission_denied resource_exhausted failed_precondition aborted out_of_range unimplemented
        internal unavailable data_loss unauthenticated :
      Code

pub data Cause : Type 0 where
  -- internal/domain
  invalid_weight invalid_money not_found : Cause
  -- internal/events
  malformed unsupported : Cause
  -- internal/storage
  dispatch_conflict db_unavailable : Cause
  -- internal/pricing
  pricing_unavailable pricing_timeout pricing_rejected : Cause
  -- internal/consumer
  stopped : Cause
  -- context
  canceled deadline_exceeded : Cause
  -- pgx, pgconn, net, syscall
  connect_error net_error safe_to_retry unique_violation no_rows connection_refused : Cause
  -- a gRPC status
  grpc_status : Code → Cause

tag : Cause → ℕ
tag invalid_weight = 0
tag invalid_money = 1
tag not_found = 2
tag malformed = 3
tag unsupported = 4
tag dispatch_conflict = 5
tag db_unavailable = 6
tag pricing_unavailable = 7
tag pricing_timeout = 8
tag pricing_rejected = 9
tag stopped = 10
tag canceled = 11
tag deadline_exceeded = 12
tag connect_error = 13
tag net_error = 14
tag safe_to_retry = 15
tag unique_violation = 16
tag no_rows = 17
tag connection_refused = 18
tag (grpc_status c) = 19

-- Two sentinels are the same value, or both are gRPC statuses.
unfoldable pub same : Cause → Cause → Bool
unfolding tag
same c d = tag c == tag d

-- An error that wraps nothing the program asks for is `[]`.
abbrev pub Error : Type 0
Error = List Cause

-- `errors.Is` and `errors.As`: the chain has the sentinel.
unfoldable pub is : Cause → Error → Bool
is c [] = false
is c (d ∷ e) = same d c || is c e

-- The two results of a Go function, of which one counts.
pub data Result {ℓ} (A : Type ℓ) : Type ℓ where
  err : Error → Result A
  ok : A → Result A

infixl 5 ◌>>=◌
abbrev pub ◌>>=◌ {ℓ κ} : {A : Type ℓ} {B : Type κ} → Result A → (A → Result B) → Result B
err failure >>= next = err failure
ok value >>= next = next value

infixl 5 ◌>>◌
abbrev pub ◌>>◌ {ℓ} : {B : Type ℓ} → Result (Unit {0}) → Result B → Result B
first >> second = first >>= λ done. second

-- `if err := ...; err != nil { return ..., wrap(err) }`
abbrev pub check : Option Error → Error → Result (Unit {0})
check none prefix = ok tt
check (some e) prefix = err (prefix ++ e)
