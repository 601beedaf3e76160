-- ===== src/Service/Utils.antt =====
-- src/utils.rs: the questions that are put to the full node, and `OnceStatic`, a static that is set
-- once. Making the client, the runtime and the configuration file are calls of other crates.
use Prim.Native.String.{String}
use text.Mathlib.Text.{◌==◌}
use manta_indexer.Prelude.{Bool, false, not, ◌||◌, Option, none, some, List, [], ◌∷◌}
use manta_indexer.Service.Calls.{Outcome, done, stopped, callee, panicked}

-- `names.iter().any(|n| n == name)`
unfoldable pub has : String → List String → Bool
has name [] = false
has name (n ∷ names) = n == name || has name names

-- A reply is `none` where the request fails.
unfoldable pub is_full_node : Option (List String) → Outcome Bool
unfolding has
is_full_node none = stopped panicked
is_full_node (some roles) = done (has "Full" roles)

unfoldable pub is_the_rpc_methods_existed : Option (List String) → String → Outcome Bool
unfolding has
is_the_rpc_methods_existed none rpc_method = stopped callee
is_the_rpc_methods_existed (some methods) rpc_method = done (has rpc_method methods)

-- The replies to the two requests, 13 seconds apart; the second is not made where the first fails.
unfoldable pub is_full_node_started : Option String → Option String → Outcome Bool
is_full_node_started none latest_block = stopped callee
is_full_node_started (some current_block) none = stopped callee
is_full_node_started (some current_block) (some latest_block) =
    done (not (latest_block == current_block))

module _ {T : Type 0} where
  -- `OnceStatic::init`, where `f` gives a value or fails; the cell is `none` before.
  unfoldable pub init : Option T → Option T → Outcome (Unit {0}) × Option T
  init none inner = (stopped callee, inner)
  init (some value) none = (done tt, some value)
  init (some value) (some before) = (stopped panicked, some before)

  -- `deref`
  unfoldable pub deref : Option T → Outcome T
  deref none = stopped panicked
  deref (some value) = done value
