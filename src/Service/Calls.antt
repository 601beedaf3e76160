-- ===== src/Service/Calls.antt =====
-- How the service of src/service.rs starts: calls that are made one after the other, each of which may
-- end the start, and what they leave behind.
use Prim.Native.String.{String}
use manta_indexer.Prelude.{
  zero, suc, ◌+◌, if◌then◌else◌, ℕ, ◌≡◌, ap, Bool, true, false, Option, none, some, List, [], ◌∷◌,
  ◌++◌,
}
use manta_indexer.Store.{IndexerError}

-- `RpcMethods` of src/types.rs
pub record RpcMethods : Type 0 where
  pub version : ℕ
  pub methods : List String

-- What the WebSocket server is built with.
pub record ServerSettings : Type 0 where
  pub connections : ℕ
  pub request_body_size : ℕ
  pub response_body_size : ℕ
  pub ping : ℕ
  pub subscriptions_per_connection : ℕ

-- A call of something outside, with what is passed to it.
pub data Effect : Type 0 where
  read_migrations create_database migrate pragma connect ask : String → Effect
  init_logger register_signal : String → Effect
  create_in_wal acquire spawn_worker stop_server await_tasks : Effect
  sleep : ℕ → Effect
  open_pool : String → ℕ → Effect
  run_job : ℕ × ℕ → ℕ → Effect
  export_metrics : ℕ → Effect
  serve : ℕ → ServerSettings → List String → Effect

-- The static `RPC_METHODS`, unset at first, and the calls made so far.
pub record Startup : Type 0 where
  pub rpc_methods : Option RpcMethods
  pub calls : List Effect

-- Why a start ends early: an error of the indexer, the `bail!` on the frequency, an error of a callee
-- that is passed on, or a panic. `waiting` is a start that is not at its end yet.
pub data Stop : Type 0 where
  indexer : IndexerError → Stop
  too_frequent : ℕ → Stop
  callee panicked waiting : Stop

pub data Outcome (A : Type 0) : Type 0 where
  done : A → Outcome A
  stopped : Stop → Outcome A

abbrev pub Action : Type 0 → Type 0
Action A = Startup → Outcome A × Startup

module _ {A : Type 0} where
  abbrev pub pure : A → Action A
  pure a s = (done a, s)

  abbrev pub stop : Stop → Action A
  stop x s = (stopped x, s)

  -- `option.ok_or(x)?`, and `option.expect(..)` with a panic for `x`.
  abbrev pub or_stop : Option A → Stop → Action A
  or_stop none x s = (stopped x, s)
  or_stop (some a) x s = (done a, s)

-- A call that is made, and then ends the start with `x` or not.
abbrev pub attempt_or : Stop → Bool → Effect → Action (Unit {0})
attempt_or x true call s = (done tt, record s { calls = s.calls ++ call ∷ [] })
attempt_or x false call s = (stopped x, record s { calls = s.calls ++ call ∷ [] })

abbrev pub attempt : Bool → Effect → Action (Unit {0})
attempt = attempt_or callee

module _ {A B : Type 0} where
  infixl 5 ◌>>=◌ ◌>>◌
  unfoldable pub ◌>>=◌ : Action A → (A → Action B) → Action B
  ◌>>=◌ m f s = let (r, s') = m s in elim r [ done a ↦ f a s' | stopped x ↦ (stopped x, s') ]

  abbrev pub ◌>>◌ : Action A → Action B → Action B
  m >> k = m >>= λ _. k

  abbrev continue : (A → Action B) → Outcome A × Startup → Outcome B × Startup
  continue f r = elim r.0 [ done a ↦ f a r.1 | stopped x ↦ (stopped x, r.1) ]

  -- A step that succeeds hands its value and state on.
  pub bind-done :
      (m : Action A) (f : A → Action B) {s s' : Startup} {a : A}
      → m s ≡ (done a, s')
      → (m >>= f) s ≡ f a s'
  unfolding ◌>>=◌
  bind-done m f h = ap (continue f) h

  -- A step that ends the start ends the chain.
  pub bind-stopped :
      (m : Action A) (f : A → Action B) {s s' : Startup} {x : Stop}
      → m s ≡ (stopped x, s')
      → (m >>= f) s ≡ (stopped x, s')
  unfolding ◌>>=◌
  bind-stopped m f h = ap (continue f) h

-- `while test { sleep(seconds) }`, for at most `fuel` turns; the test reads flags that others set, as
-- they are at its look `n`.
unfoldable pub wait_while : (ℕ → Bool) → ℕ → ℕ → ℕ → Action (Unit {0})
wait_while test seconds zero n = stop waiting
wait_while test seconds (suc fuel) n =
    let rest = attempt true (sleep seconds) >> wait_while test seconds fuel (n + 1) in
    if test n then rest else pure tt

-- A call that succeeds is on record.
pub attempt-true :
    (x : Stop) {good : Bool} (call : Effect) (s : Startup)
    → good ≡ true
    → attempt_or x good call s ≡ (done tt, record s { calls = s.calls ++ call ∷ [] })
attempt-true x call s h = ap (λ b. attempt_or x b call s) h

-- A step that computes on an option or another value that is known.
pub step_at : {A B : Type 0} (f : B → Action A) {o o' : B} (s : Startup) → o ≡ o' → f o s ≡ f o' s
step_at f s h = ap (λ o. f o s) h
