-- ===== src/Binaries.antt =====
-- internal/app/app.go and what the run functions of cmd share: a process over a state `W` of the world,
-- with the trace of what it has opened and closed. The dependencies, the listeners and the work of the
-- goroutines are the parameter `Host`.
pub mod Settings
pub mod Runs
pub mod Closing
pub mod Cleanup
pub mod Starts
use empower_technical_interv.Prelude.{
  ℕ, suc, ◌+◌, ◌/◌, Bool, true, false, ◌&&◌, List, [], ◌∷◌, Option, none, some, String, str_eq,
  if◌then◌else◌, ◌==◌,
}
use empower_technical_interv.Prelude.Int.{ℤ, pos, pos_part}
use empower_technical_interv.Errors.{Error, Result, ok, err}
use empower_technical_interv.Startup.{Clock, retry_start}

-- What a run function opens, and closes by a deferred call.
pub data Resource : Type 0 where
  pool management publisher grpc_server health main_loop : Resource

abbrev resource_tag : Resource → ℕ
resource_tag pool = 0
resource_tag management = 1
resource_tag publisher = 2
resource_tag grpc_server = 3
resource_tag health = 4
resource_tag main_loop = 5

abbrev pub same_resource : Resource → Resource → Bool
same_resource r s = resource_tag r == resource_tag s

pub data Action : Type 0 where
  opened closed : Resource → Action
  -- the context of the main loop is cancelled
  stop_requested : Action

pub data Dependency : Type 0 where
  postgres : String → Dependency
  kafka : List String → Dependency

-- What ends the `select` of the relay and of the consumer.
pub data Ending : Type 0 where
  loop_ended : Option Error → Ending
  management_failed : Error → Ending

-- What ends the `select` of the gRPC service.
pub data ServiceEnding : Type 0 where
  signalled : ServiceEnding
  serve_failed : Error → ServiceEnding
  health_failed : Error → ServiceEnding

pub record Host (W : Type 0) : Type 0 where
  -- one attempt to reach a dependency, under a context that ends the given time after
  -- the given state
  pub dependency : Dependency → ℤ → W → Clock W
  -- net.Listen
  pub listen : String → W → Option Error × W
  -- the select, with the work of the goroutines beside it
  pub await : W → Ending × W
  pub await_service : W → ServiceEnding × W
  -- what goes on until the loop has ended after its context is cancelled
  pub drain : W → W
  -- a deferred call
  pub close : Resource → W → W

-- The trace has the last action first.
pub record Process (W : Type 0) : Type 0 where
  pub world : W
  pub trace : List Action

-- What a part of a run function gives: its error, if it has one, and the process after it. It is `none`
-- if the fuel of a retry runs out.
abbrev pub Ran : Type 0 → Type 0
Ran W = Option (Option Error × Process W)

module _ {W : Type 0} (host : Host W) where
  -- App.Retry, with fuel for a round for each half second of its timeout and two more.
  unfoldable pub app_retry : Dependency → ℤ → W → Option (Option Error × W)
  app_retry d timeout w =
      retry_start (host.dependency d timeout w) (suc (pos_part timeout / 500000000 + 1)) w

  -- The rest of the function, or `return err`.
  unfoldable pub after_retry : Dependency → ℤ → (Process W → Ran W) → Process W → Ran W
  after_retry d timeout body p = elim (app_retry d timeout p.world) [
    | none ↦ none
    | some (failure, w) ↦ elim failure [
      | some e ↦ some (some e, record p { world = w })
      | none ↦ body (record p { world = w })
    ]
  ]

  -- A resource is there, and the rest of the function runs.
  unfoldable pub acquiring : Resource → (Process W → Ran W) → Process W → Ran W
  acquiring r body p = body (record p { trace = opened r ∷ p.trace })

  -- `defer`: the rest of the function, and then the deferred call.
  unfoldable pub deferring : Resource → (Process W → Ran W) → Process W → Ran W
  deferring r body p = elim (body p) [
    | none ↦ none
    | some (result, p') ↦
        some (result, record { world = host.close r p'.world; trace = closed r ∷ p'.trace })
  ]

  -- OpenStore: a minute of retries. Its caller owns the pool.
  unfoldable pub open_store : String → (Process W → Ran W) → Process W → Ran W
  open_store dsn body = after_retry (postgres dsn) (pos 60000000000) (acquiring pool body)

  -- net.Listen, then the rest of the function, or `return err`.
  unfoldable pub listening : String → (Process W → Ran W) → Process W → Ran W
  listening addr body p =
      let (failure, w) = host.listen addr p.world in
      elim failure [
        | some e ↦ some (some e, record p { world = w })
        | none ↦ body (record p { world = w })
      ]

  -- ListenManagement
  unfoldable pub listen_management : String → (Process W → Ran W) → Process W → Ran W
  listen_management addr body = listening addr (acquiring management body)

  unfoldable pub act : Action → W → Process W → Process W
  act a w p = record { world = w; trace = a ∷ p.trace }

  -- The end of the run functions of the relay and of the consumer: the loop in a goroutine, the select,
  -- and the wait for the loop if the management server has failed.
  unfoldable pub run_loop : Process W → Ran W
  run_loop p =
      let p1 = act (opened main_loop) p.world p in
      let (ending, w) = host.await p1.world in
      elim ending [
        | loop_ended failure ↦ some (failure, act (closed main_loop) w p1)
        | management_failed e ↦
            some (some e, act (closed main_loop) (host.drain w) (act stop_requested w p1))
      ]

-- Main: the exit status of a process.
unfoldable pub exit_status : Option Error → ℕ
exit_status none = 0
exit_status (some e) = 1

-- What is open after a trace; `none` if something was closed that was not the last one opened.
unfoldable pub still_open : List Action → Option (List Resource)
still_open [] = some []
still_open (opened r ∷ t) = elim (still_open t) [ none ↦ none | some rs ↦ some (r ∷ rs) ]
still_open (closed r ∷ t) = elim (still_open t) [
  | none ↦ none
  | some [] ↦ none
  | some (s ∷ rs) ↦ if same_resource r s then some rs else none
]
still_open (stop_requested ∷ t) = still_open t
