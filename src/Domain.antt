-- ===== src/Domain.antt =====
-- internal/domain/domain.go: the business types and rules that the services share.
pub mod Rules
pub mod Ids
use Prim.Native.String.{String, char_at, ◌++◌ as ◌<>◌}
use empower_technical_interv.Prelude.{
  ℕ, ◌/◌, ◌%◌, Bool, true, false, ◌&&◌, ◌||◌, not, List, [], ◌∷◌, Option, none, some, ltb, ◌==◌,
  if◌then◌else◌, length,
}
use empower_technical_interv.Prelude.Int.{ℤ, pos, ltb_ℤ}
use empower_technical_interv.Prelude.Text.{bytes}
use empower_technical_interv.Errors.{Error, invalid_weight, invalid_money}

-- int32 and int64 values are integers; every one below is only stored and compared.
abbrev pub min_weight_grams : ℤ
min_weight_grams = pos 1

abbrev pub max_weight_grams : ℤ
max_weight_grams = pos 30000

unfoldable pub validate_weight : ℤ → Option Error
validate_weight weight_grams =
    if ltb_ℤ weight_grams min_weight_grams || ltb_ℤ max_weight_grams weight_grams
    then some (invalid_weight ∷ [])
    else none

abbrev pub ShipmentId : Type 0
ShipmentId = String

abbrev pub EventId : Type 0
EventId = String

abbrev pub DispatchId : Type 0
DispatchId = String

-- encoding/hex, a byte at a time
hex : List ℕ → String
hex [] = ""
hex (b ∷ bs) =
    String.◌∷◌ (char_at "0123456789abcdef" (b / 16))
      (String.◌∷◌ (char_at "0123456789abcdef" (b % 16)) (hex bs))

-- The eight random bytes are the argument.
unfoldable pub new_id : String → List ℕ → String
unfolding hex
new_id prefix random = prefix <> ("_" <> hex random)

unfoldable pub new_shipment_id : List ℕ → ShipmentId
unfolding new_id
new_shipment_id random = new_id "shp" random

unfoldable pub new_event_id : List ℕ → EventId
unfolding new_id
new_event_id random = new_id "evt" random

unfoldable pub new_dispatch_id : List ℕ → DispatchId
unfolding new_id
new_dispatch_id random = new_id "dsp" random

unfoldable pub new_correlation_id : List ℕ → String
unfolding new_id
new_correlation_id random = new_id "req" random

pub record Money : Type 0 where
  pub amount_cents : ℤ
  pub currency : String

-- `Money{}`
abbrev pub zero_money : Money
zero_money = record { amount_cents = pos 0; currency = "" }

-- The loop over the three bytes.
unfoldable pub all_upper : List ℕ → Bool
all_upper [] = true
all_upper (b ∷ bs) = let rest = all_upper bs in if ltb b b'A' || ltb b'Z' b then false else rest

unfoldable pub is_currency_code : String → Bool
is_currency_code s = if not (length (bytes s) == 3) then false else all_upper (bytes s)

unfoldable pub validate_money : Money → Option Error
validate_money m =
    if ltb_ℤ m.amount_cents (pos 0)
    then some (invalid_money ∷ [])
    else if not (is_currency_code m.currency)
    then some (invalid_money ∷ [])
    else none

-- An instant, in nanoseconds; UTC conversion leaves it the same.
abbrev pub Time : Type 0
Time = ℕ

pub record Shipment : Type 0 where
  pub id : ShipmentId
  pub weight_grams : ℤ
  pub price : Money
  pub created_at : Time

-- `unset` is the zero value, which `iota + 1` leaves free.
pub data OutboxStatus : Type 0 where
  unset pending published : OutboxStatus

pub data DispatchStatus : Type 0 where
  unset pending dispatched : DispatchStatus

pub record Dispatch : Type 0 where
  pub status : DispatchStatus
  pub id : DispatchId
  pub event_id : EventId
  pub dispatched_at : Time

-- `Dispatch{}` and `Dispatch{Status: s}`
abbrev pub blank_dispatch : DispatchStatus → Dispatch
blank_dispatch s = record { status = s; id = ""; event_id = ""; dispatched_at = 0 }

pub record ShipmentView : Type 0 where
  pub shipment : Shipment
  pub outbox : OutboxStatus
  pub dispatch : Dispatch
