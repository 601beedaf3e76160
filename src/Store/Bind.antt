-- ===== src/Store/Bind.antt =====
-- Steps through a chain of actions.
use manta_indexer.Prelude.{◌≡◌, refl, ap, Bool, true, false, not, if◌then◌else◌}
use manta_indexer.External.{External}
use manta_indexer.Store.{World, Action, Result, Failure, ok, err, in_transaction, ◌>>=◌}

module _ {e : External} {A B : Type 0} where
  -- How a chain goes on from what its first action gives.
  abbrev continue : (A → Action e B) → Result A × World e → Result B × World e
  continue f r = elim r.0 [ ok a ↦ f a r.1 | err x ↦ (err x, r.1) ]

  -- A step that succeeds hands its value and world on.
  pub bind-ok :
      (m : Action e A) (f : A → Action e B) {w w' : World e} {a : A}
      → m w ≡ (ok a, w')
      → (m >>= f) w ≡ f a w'
  unfolding ◌>>=◌
  bind-ok m f h = ap (continue f) h

  -- A step that fails ends the chain.
  pub bind-err :
      (m : Action e A) (f : A → Action e B) {w w' : World e} {x : Failure}
      → m w ≡ (err x, w')
      → (m >>= f) w ≡ (err x, w')
  unfolding ◌>>=◌
  bind-err m f h = ap (continue f) h

module _ {e : External} {A : Type 0} where
  abbrev committed : World e → Result A × World e → Result A × World e
  committed w r = elim r.0 [
    | ok a ↦ (ok a, r.1)
    | err x ↦ (err x, record r.1 { tables = w.tables })
  ]

  -- A transaction whose work succeeds keeps it.
  pub in_transaction-ok :
      (m : Action e A) {w w' : World e} {a : A} → m w ≡ (ok a, w') → in_transaction m w ≡ (ok a, w')
  unfolding in_transaction
  in_transaction-ok m {w} h = ap (committed w) h

-- A loop's end, `if !should_continue { break; }`.
module _ {e : External} {B : Type 0} (more : Bool) (m rest : Action e B) (w : World e) where
  pub stop : more ≡ false → (if not more then m else rest) w ≡ m w
  stop over = rw over refl

  pub go_on : more ≡ true → (if not more then m else rest) w ≡ rest w
  go_on goes = rw goes refl
