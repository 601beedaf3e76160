-- ===== src/Service/Fine.antt =====
-- Calls of src/service.rs that do not panic, and chains of them.
use Prim.Native.String.{String}
use manta_indexer.Prelude.{
  ℕ, zero, suc, ◌+◌, ◌≡◌, ◌≢◌, refl, Bool, true, false, Option, none, some, List, leb, Bool-cases,
  inl, inr,
}
use manta_indexer.Service.Calls.{
  Startup, Effect, Outcome, done, stopped, Action, indexer, too_frequent, callee, panicked, waiting,
  attempt, attempt_or, wait_while, or_stop, ◌>>=◌,
}
use manta_indexer.Service.Utils.{init, is_the_rpc_methods_existed}
use manta_indexer.Service.Open.{Driver, ensure_database, initialize_db_pool}
use manta_indexer.Service.Start.{
  Value, str, integer, other, WsServerConfig, as_str, as_integer, as_server, check_frequency,
  init_rpc_methods, ensure_rpc_method,
}

-- No panic, and where a value is given, `P` of it and of the state.
abbrev pub Fine : {A : Type 0} → (A → Startup → Type 0) → Outcome A × Startup → Type 0
Fine P (done a, s) = P a s
Fine P (stopped (indexer x), s) = Unit
Fine P (stopped (too_frequent n), s) = Unit
Fine P (stopped callee, s) = Unit
Fine P (stopped waiting, s) = Unit
Fine P (stopped panicked, s) = ⊥

module _ {A B : Type 0} (P : B → Startup → Type 0) (Q : A → Startup → Type 0) where
  go_on :
      (f : A → Action B) (r : Outcome A × Startup)
      → Fine Q r
      → ((a : A) (s : Startup) → Q a s → Fine P (f a s))
      → Fine P (((λ _. r) >>= f) r.1)
  unfolding ◌>>=◌
  go_on f (done a, s) fine rest = rest a s fine
  go_on f (stopped (indexer x), s) fine rest = tt
  go_on f (stopped (too_frequent n), s) fine rest = tt
  go_on f (stopped callee, s) fine rest = tt
  go_on f (stopped waiting, s) fine rest = tt
  go_on f (stopped panicked, s) fine rest = fine

  pub then_Fine :
      (m : Action A) (f : A → Action B) (s : Startup)
      → Fine Q (m s)
      → ((a : A) (s' : Startup) → Q a s' → Fine P (f a s'))
      → Fine P ((m >>= f) s)
  unfolding ◌>>=◌
  then_Fine m f s fine rest = go_on f (m s) fine rest

-- The static is not set yet.
abbrev pub Unset : {A : Type 0} → A → Startup → Type 0
Unset a s = s.rpc_methods ≡ none

abbrev pub Any : {A : Type 0} → A → Startup → Type 0
Any a s = Unit

pub attempt-Unset :
    (good : Bool) (call : Effect) (s : Startup) → Unset tt s → Fine Unset (attempt good call s)
attempt-Unset true call s u = u
attempt-Unset false call s u = tt

pub attempt-Any : (good : Bool) (call : Effect) (s : Startup) → Fine Any (attempt good call s)
attempt-Any true call s = tt
attempt-Any false call s = tt

pub as_str-Unset :
    (o : Option Value) (s : Startup) → o ≢ none → Unset tt s → Fine Unset (as_str o s)
as_str-Unset none s present u = present refl
as_str-Unset (some (str v)) s present u = u
as_str-Unset (some (integer v)) s present u = tt
as_str-Unset (some other) s present u = tt

pub as_integer-Unset :
    (o : Option Value) (s : Startup) → o ≢ none → Unset tt s → Fine Unset (as_integer o s)
as_integer-Unset none s present u = present refl
as_integer-Unset (some (str v)) s present u = tt
as_integer-Unset (some (integer v)) s present u = u
as_integer-Unset (some other) s present u = tt

pub as_server-Unset :
    (o : Option (Option WsServerConfig)) (s : Startup)
    → o ≢ none
    → Unset tt s
    → Fine Unset (as_server o s)
as_server-Unset none s present u = present refl
as_server-Unset (some none) s present u = tt
as_server-Unset (some (some c)) s present u = u

pub or_callee-Unset :
    {A : Type 0} (o : Option A) (s : Startup) → Unset tt s → Fine Unset (or_stop o callee s)
or_callee-Unset none s u = tt
or_callee-Unset (some a) s u = u

pub check_frequency-Unset :
    (frequency : ℕ) (s : Startup) → Unset tt s → Fine Unset (check_frequency frequency s)
check_frequency-Unset frequency s u = elim (Bool-cases (leb 12 frequency)) [
  | inl q ↦ rw q tt
  | inr q ↦ rw q u
]

module _ (d : Driver) (creates : d.creates_database ≡ true) where
  ensure_database-Unset :
      (o : Option Bool) (db_url : String) (s : Startup)
      → Unset tt s
      → Fine Unset (ensure_database d db_url o s)
  unfolding ensure_database ◌>>=◌
  ensure_database-Unset (some true) db_url s u = u
  ensure_database-Unset (some false) db_url s u = rw creates u
  ensure_database-Unset none db_url s u = rw creates u

  pub initialize_db_pool-Unset :
      (migrations_path db_url : String) (pool_size : ℕ) (s : Startup)
      → Unset tt s
      → Fine Unset (initialize_db_pool d migrations_path db_url pool_size s)
  unfolding initialize_db_pool
  initialize_db_pool-Unset migrations_path db_url pool_size s u =
      then_Fine _ Unset _ _ s (attempt-Unset _ _ s u) λ _ s1 u1.
        then_Fine _ Unset _ _ s1 (ensure_database-Unset _ _ s1 u1) λ _ s2 u2.
          then_Fine _ Unset _ _ s2 (attempt-Unset _ _ s2 u2) λ _ s3 u3.
            then_Fine _ Unset _ _ s3 (attempt-Unset _ _ s3 u3) λ _ s4 u4.
              then_Fine _ Unset _ _ s4 (attempt-Unset _ _ s4 u4) λ _ s5 u5.
                then_Fine _ Unset _ _ s5 (attempt-Unset _ _ s5 u5)
                  λ _ s6 u6. attempt-Unset _ _ s6 u6

pub init_rpc_methods-Any :
    (methods : List String) (s : Startup) → Unset tt s → Fine Any (init_rpc_methods methods s)
unfolding init_rpc_methods init
init_rpc_methods-Any methods s u = rw u tt

pub ensure_rpc_method-Any :
    (reply : Option (List String)) (rpc_method : String) (s : Startup)
    → Fine Any (ensure_rpc_method reply rpc_method s)
unfolding ensure_rpc_method is_the_rpc_methods_existed ◌>>=◌
ensure_rpc_method-Any none rpc_method s = tt
ensure_rpc_method-Any (some methods) rpc_method s = tt

pub wait_while-Any :
    (test : ℕ → Bool) (seconds fuel n : ℕ) (s : Startup)
    → Fine Any (wait_while test seconds fuel n s)
unfolding wait_while
wait_while-Any test seconds zero n s = tt
wait_while-Any test seconds (suc fuel) n s = elim (Bool-cases (test n)) [
  | inl more ↦
      rw more (then_Fine Any Any _ _ s tt λ _ s1 _. wait_while-Any test seconds fuel (n + 1) s1)
  | inr over ↦ rw over tt
]

-- A call whose failure would panic, where it succeeds.
pub attempt_panics-Unset :
    (good : Bool) (call : Effect) (s : Startup)
    → good ≡ true
    → Unset tt s
    → Fine Unset (attempt_or panicked good call s)
attempt_panics-Unset good call s h u = rw h u
