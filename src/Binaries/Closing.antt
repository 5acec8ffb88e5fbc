-- ===== src/Binaries/Closing.antt =====
-- The parts of the run functions: what each leaves open when it returns.
use empower_technical_interv.Prelude.{
  ℕ, ◌+◌, ◌/◌, ◌≡◌, ◌⊎◌, refl, true, List, ◌∷◌, Option, none, some, arith, Option-cases, inl, inr,
  String,
}
use empower_technical_interv.Prelude.Int.{ℤ, pos, pos_part}
use empower_technical_interv.Errors.{Error, Result, ok, err}
use empower_technical_interv.Binaries.{
  Host, Process, Ran, Resource, Action, Dependency, Ending, same_resource, still_open, app_retry,
  after_retry, acquiring, deferring, open_store, listening, listen_management, run_loop, act, pool,
  management, grpc_server, health, main_loop, postgres,
}
use empower_technical_interv.Binaries.Runs.{on_loaded, serve}
use empower_technical_interv.Startup.{retry_start}
use empower_technical_interv.Startup.Patience.{IsClock, retry_from-Returns}

-- A part of a run function that returns, and leaves open `after rs` where it found `before rs` open.
abbrev pub Takes :
    {W : Type 0}
    → (List Resource → List Resource)
    → (List Resource → List Resource)
    → (Process W → Ran W)
    → Type 0
Takes {W} before after body =
    (p : Process W) (rs : List Resource)
    → still_open p.trace ≡ some (before rs)
    → (result : Option Error × Process W) × (body p ≡ some result)
      × (still_open result.1.trace ≡ some (after rs))

-- It leaves open what it found open.
abbrev pub LeavesOpen : {W : Type 0} → (Process W → Ran W) → Type 0
LeavesOpen = Takes (λ rs. rs) (λ rs. rs)

-- It finds a resource open, which it has to close.
abbrev pub Closes : {W : Type 0} → Resource → (Process W → Ran W) → Type 0
Closes r = Takes (λ rs. r ∷ rs) (λ rs. rs)

-- The contexts of the retries: time does not go back, and each ends its timeout after its start.
abbrev pub IsPunctual : {W : Type 0} → Host W → (W → ℕ) → Type 0
IsPunctual {W} host time =
    (d : Dependency) (timeout : ℤ) (w : W)
    → IsClock (host.dependency d timeout w) time (time w + pos_part timeout)

same_resource_refl : (r : Resource) → same_resource r r ≡ true
same_resource_refl Resource.pool = refl
same_resource_refl Resource.management = refl
same_resource_refl Resource.publisher = refl
same_resource_refl Resource.grpc_server = refl
same_resource_refl Resource.health = refl
same_resource_refl Resource.main_loop = refl

Ending-cases :
    (ending : Ending)
    → ((failure : Option Error) × (ending ≡ Ending.loop_ended failure))
      ⊎ ((e : Error) × (ending ≡ Ending.management_failed e))
Ending-cases (Ending.loop_ended failure) = inl (failure, refl)
Ending-cases (Ending.management_failed e) = inr (e, refl)

-- Closing what was opened last.
still_open-closed :
    (r : Resource) (t : List Action) (rs : List Resource)
    → still_open t ≡ some (r ∷ rs)
    → still_open (Action.closed r ∷ t) ≡ some rs
unfolding still_open
still_open-closed r t rs h = rw h (rw (same_resource_refl r) refl)

still_open-opened :
    (r : Resource) (t : List Action) (rs : List Resource)
    → still_open t ≡ some rs
    → still_open (Action.opened r ∷ t) ≡ some (r ∷ rs)
unfolding still_open
still_open-opened r t rs h = rw h refl

module _ {W : Type 0} (host : Host W) (time : W → ℕ) (law : IsPunctual host time) where
  app_retry-returns :
      (d : Dependency) (timeout : ℤ) (w : W)
      → (a : Option Error × W) × (app_retry host d timeout w ≡ some a)
  unfolding app_retry retry_start
  app_retry-returns d timeout w =
      let answer =
        retry_from-Returns (host.dependency d timeout w) time (time w + pos_part timeout)
          (law d timeout w) (pos_part timeout / 500000000 + 1) 500000000 w (omega arith)
          (omega arith) (omega arith) in
      (answer.0, answer.1)

  acquiring-Takes :
      (r : Resource) (before after : List Resource → List Resource) (body : Process W → Ran W)
      → Takes (λ rs. r ∷ before rs) after body
      → Takes before after (acquiring host r body)
  unfolding acquiring
  acquiring-Takes r before after body h p rs found =
      h (record p { trace = Action.opened r ∷ p.trace }) rs
        (still_open-opened r p.trace (before rs) found)

  deferring-Takes :
      (r : Resource) (before after : List Resource → List Resource) (body : Process W → Ran W)
      → Takes before (λ rs. r ∷ after rs) body
      → Takes before after (deferring host r body)
  unfolding deferring
  deferring-Takes r before after body h p rs found =
      let (done, ended, inside) = h p rs found in
      (
        (
          done.0,
          record { world = host.close r done.1.world; trace = Action.closed r ∷ done.1.trace },
        ),
        rw (ended, deferring) refl,
        still_open-closed r done.1.trace (after rs) inside,
      )

  pub deferring-Closes :
      (r : Resource) (body : Process W → Ran W) → LeavesOpen body → Closes r (deferring host r body)
  deferring-Closes r body h =
      deferring-Takes r (λ rs. r ∷ rs) (λ rs. rs) body (λ p rs. h p (r ∷ rs))

  -- By how the retry ended.
  after_retry-by_outcome :
      (d : Dependency) (timeout : ℤ) (body : Process W → Ran W)
      → LeavesOpen body
      → (p : Process W) (rs : List Resource) → still_open p.trace ≡ some rs
      → (failure : Option Error) (w : W) → app_retry host d timeout p.world ≡ some (failure, w)
      → (result : Option Error × Process W) × (after_retry host d timeout body p ≡ some result)
        × (still_open result.1.trace ≡ some rs)
  unfolding after_retry
  after_retry-by_outcome d timeout body h p rs before (some e) w tried =
      ((some e, record p { world = w }), rw (tried, after_retry) refl, before)
  after_retry-by_outcome d timeout body h p rs before none w tried =
      let (done, ended, after) = h (record p { world = w }) rs before in
      (done, rw (tried, after_retry) ended, after)

  pub after_retry-LeavesOpen :
      (d : Dependency) (timeout : ℤ) (body : Process W → Ran W)
      → LeavesOpen body
      → LeavesOpen (after_retry host d timeout body)
  after_retry-LeavesOpen d timeout body h p rs before =
      let ((failure, w), tried) = app_retry-returns d timeout p.world in
      after_retry-by_outcome d timeout body h p rs before failure w tried

  pub listening-LeavesOpen :
      (addr : String) (body : Process W → Ran W)
      → LeavesOpen body
      → LeavesOpen (listening host addr body)
  unfolding listening
  listening-LeavesOpen addr body h p rs before =
      let (failure, w) = host.listen addr p.world in
      elim (Option-cases (host.listen addr p.world).0) [
        | inr (e, failed) ↦ ((some e, record p { world = w }), rw (failed, listening) refl, before)
        | inl fine ↦
            let (done, ended, after) = h (record p { world = w }) rs before in
            (done, rw (fine, listening) ended, after)
      ]

  listen_management-LeavesOpen :
      (addr : String) (body : Process W → Ran W)
      → Closes management body
      → LeavesOpen (listen_management host addr body)
  unfolding listen_management
  listen_management-LeavesOpen addr body h =
      listening-LeavesOpen addr _ (acquiring-Takes management (λ rs. rs) (λ rs. rs) body h)

  pub open_store-LeavesOpen :
      (dsn : String) (body : Process W → Ran W)
      → Closes pool body
      → LeavesOpen (open_store host dsn body)
  unfolding open_store
  open_store-LeavesOpen dsn body h =
      after_retry-LeavesOpen (postgres dsn) (pos 60000000000) _
        (acquiring-Takes pool (λ rs. rs) (λ rs. rs) body h)

  -- The three ways in which the select ends.
  pub run_loop-LeavesOpen : LeavesOpen (run_loop host)
  unfolding run_loop act still_open
  run_loop-LeavesOpen p rs before =
      let (ending, w) = host.await p.world in
      elim (Ending-cases ending) [
        | inl (failure, e) ↦ (
          (
            failure,
            act host (Action.closed main_loop) w (act host (Action.opened main_loop) p.world p),
          ),
          rw (e, run_loop) refl,
          rw before refl,
        )
        | inr (failure, e) ↦ (
          (
            some failure,
            act host (Action.closed main_loop) (host.drain w)
                (act host Action.stop_requested w (act host (Action.opened main_loop) p.world p)),
          ),
          rw (e, run_loop) refl,
          rw before refl,
        )
      ]

  pub acquired-LeavesOpen :
      (r : Resource) (body : Process W → Ran W)
      → LeavesOpen body
      → LeavesOpen (acquiring host r (deferring host r body))
  acquired-LeavesOpen r body h =
      acquiring-Takes r (λ rs. rs) (λ rs. rs) _ (deferring-Closes r body h)

  -- The pool and the management server, with their deferred calls.
  pub both_open-LeavesOpen :
      (dsn addr : String) (body : Process W → Ran W)
      → LeavesOpen body
      → LeavesOpen (
          open_store host dsn
            (deferring host pool (listen_management host addr (deferring host management body))))
  both_open-LeavesOpen dsn addr body h = open_store-LeavesOpen dsn _ (
      deferring-Closes pool _
        (listen_management-LeavesOpen addr _ (deferring-Closes management body h)))

  -- The gRPC server and the health server are there before their call is deferred.
  pub served-LeavesOpen :
      (body : Process W → Ran W)
      → LeavesOpen body
      → LeavesOpen (
          acquiring host grpc_server
            (acquiring host health (deferring host grpc_server (deferring host health body))))
  served-LeavesOpen body h =
      acquiring-Takes grpc_server (λ rs. rs) (λ rs. rs) _
        (acquiring-Takes health (λ rs. grpc_server ∷ rs) (λ rs. rs) _
          (deferring-Takes grpc_server _ (λ rs. rs) _
            (λ p rs. deferring-Closes health body h p (grpc_server ∷ rs))))

  pub serve-LeavesOpen : LeavesOpen (serve host)
  unfolding serve
  serve-LeavesOpen p rs before = (_, refl, before)

  pub on_loaded-LeavesOpen {ℓ} :
      {A : Type ℓ} (r : Result A) (body : A → Process W → Ran W)
      → ((cfg : A) → LeavesOpen (body cfg))
      → LeavesOpen (on_loaded host r body)
  on_loaded-LeavesOpen (err e) body h p rs before = ((some e, p), refl, before)
  on_loaded-LeavesOpen (ok cfg) body h p rs before = h cfg p rs before
