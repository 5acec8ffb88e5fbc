-- ===== src/Smoke/Calls.antt =====
-- cmd/smoke/main.go: what the smoke test asks of the running stack, over a state `W` of the world, and the
-- steps as functions of that state.
use empower_technical_interv.Prelude.{
  ℕ, zero, suc, ◌≡◌, refl, Bool, true, false, List, [], Option, none, some, String,
}
use empower_technical_interv.Prelude.Int.{ℤ}
use empower_technical_interv.Errors.{Error, Result, ok, err}
use empower_technical_interv.Broker.{Message, KafkaRecord}
use empower_technical_interv.Api.{ProtoMoney, ProtoShipment}

-- A call of the stack answers, and changes the world.
abbrev pub Step : Type 0 → Type 0 → Type 0
Step W A = W → Result A × W

pub record Stack (P W : Type 0) : Type 0 where
  pub health_check : Step W Bool
  -- GET: the status and the body
  pub http_get : String → Step W (ℕ × String)
  -- the calls of the API, under a correlation ID
  pub get_quote : String → ℤ → Step W ProtoMoney
  pub create_shipment : String → ℤ → Step W ProtoShipment
  pub get_shipment : String → String → Step W ProtoShipment
  pub new_client : W → Option Error × W
  -- what the group-less client polls
  pub poll_fetches : W → List (KafkaRecord P) × W
  pub new_publisher : W → Option Error × W
  pub publish : Message P → W → Option Error × W
  -- a quarter of a second
  pub sleep : W → W
  -- the rounds of a loop before the context of its step ends
  pub rounds : W → ℕ
  -- fmt.Sscanf of a counter, and json.Unmarshal of the targets: their job and health
  pub read_counter : String → Result ℕ
  pub decode_targets : String → Result (List (String × String))

abbrev pub then_do : {W A B : Type 0} → Result A × W → (A → Step W B) → Result B × W
then_do (err e, w) f = (err e, w)
then_do (ok a, w) f = f a w

infixl 5 ◌>>=◌ ◌>>◌
abbrev pub ◌>>=◌ : {W A B : Type 0} → Step W A → (A → Step W B) → Step W B
◌>>=◌ m f w = then_do (m w) f

abbrev pub ◌>>◌ : {W B : Type 0} → Step W (Unit {0}) → Step W B → Step W B
m >> k = m >>= λ done. k

abbrev pub pass : {W A : Type 0} → A → Step W A
pass a w = (ok a, w)

abbrev pub lift : {W A : Type 0} → Result A → Step W A
lift r w = (r, w)

-- `if !good { return ..., fmt.Errorf(...) }`
abbrev pub demand : {W : Type 0} → Bool → Step W (Unit {0})
demand true w = (ok tt, w)
demand false w = (err [], w)

-- `if err != nil { return ..., err }`
abbrev pub checked : {W : Type 0} → Option Error × W → Result (Unit {0}) × W
checked (none, w) = (ok tt, w)
checked (some e, w) = (err e, w)

abbrev pub succeed : {W : Type 0} → (W → Option Error × W) → Step W (Unit {0})
succeed f w = checked (f w)

-- What follows a round: it fails, or has what the loop is for, or the loop goes on after a pause.
abbrev pub after_round : {W A : Type 0} → Step W A → (W → W) → Result (Option A) × W → Result A × W
after_round more pause (err e, w) = (err e, w)
after_round more pause (ok (some a), w) = (ok a, w)
after_round more pause (ok none, w) = more (pause w)

-- A loop of a step, for a number of rounds.
unfoldable pub repeat : {W A : Type 0} → ℕ → Step W (Option A) → (W → W) → Step W A
repeat zero body pause w = (err [], w)
repeat (suc n) body pause w = after_round (repeat n body pause) pause (body w)

-- The states at the head of a loop.
pub data Later {W A : Type 0} (body : Step W (Option A)) (pause : W → W) : W → W → Type 0 where
  now : {w : W} → Later body pause w w
  again : {w v u : W} → body w ≡ (ok none, v) → Later body pause (pause v) u → Later body pause w u

pub bind_ok :
    {W A B : Type 0} (r : Result A × W) (f : A → Step W B) (b : B) (v : W)
    → then_do r f ≡ (ok b, v)
    → (a : A) × ((w : W) × (r ≡ (ok a, w)) × (f a w ≡ (ok b, v)))
bind_ok (err e, w) f b v h = absurd (cc)
bind_ok (ok a, w) f b v h = (a, (w, refl, h))

pub demand_ok :
    {W B : Type 0} (good : Bool) (k : Step W B) (w : W) (b : B) (v : W)
    → (demand good >> k) w ≡ (ok b, v)
    → (good ≡ true) × (k w ≡ (ok b, v))
demand_ok true k w b v h = (refl, h)
demand_ok false k w b v h = absurd (cc)

pub succeed_ok :
    {W B : Type 0} (r : Option Error × W) (k : Step W B) (b : B) (v : W)
    → then_do (checked r) (λ done. k) ≡ (ok b, v)
    → (w : W) × (r ≡ (none, w)) × (k w ≡ (ok b, v))
succeed_ok (none, w) k b v h = (w, refl, h)
succeed_ok (some e, w) k b v h = absurd (cc)

pub pass_ok :
    {W A : Type 0} (a : A) (w : W) (b : A) (v : W) → pass a w ≡ (ok b, v) → (a ≡ b) × (w ≡ v)
pass_ok a w b v h = (cc, cc)

abbrev pub Found : {W A : Type 0} → Step W (Option A) → (W → W) → W → A → W → Type 0
Found {W} body pause w a v = (u : W) × Later body pause w u × (body u ≡ (ok (some a), v))

-- By what the first round gave.
first_round :
    {W A : Type 0} (body : Step W (Option A)) (pause : W → W) (more : Step W A) (w : W) (a : A)
    (v : W) (r : Result (Option A) × W)
    → body w ≡ r
    → ((u : W) → more u ≡ (ok a, v) → Found body pause u a v)
    → after_round more pause r ≡ (ok a, v)
    → Found body pause w a v
first_round body pause more w a v (err e, w1) same k h = absurd (cc)
first_round body pause more w a v (ok (some x), w1) same k h = (w, now, cc)
first_round body pause more w a v (ok none, w1) same k h =
    let (u, later, last) = k (pause w1) h in (u, again same later, last)

-- A loop that ends without an error ends with a round that has what it is for.
pub repeat_ok :
    {W A : Type 0} (n : ℕ) (body : Step W (Option A)) (pause : W → W) (w : W) (a : A) (v : W)
    → repeat n body pause w ≡ (ok a, v)
    → Found body pause w a v
unfolding repeat
repeat_ok zero body pause w a v h = absurd (cc)
repeat_ok (suc n) body pause w a v h =
    first_round body pause (repeat n body pause) w a v (body w) refl
      (λ u g. repeat_ok n body pause u a v g) h
