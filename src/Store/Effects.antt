-- ===== src/Store/Effects.antt =====
-- What an action may change: the tables, the cache, and what is left of them when it fails.
use manta_indexer.Prelude.{◌≡◌, refl, ◌∙◌, Option, none, some, arith}
use manta_indexer.External.{External}
use manta_indexer.Store.{
  Tables, World, Action, Result, Failure, ok, err, or_raise, statement, in_transaction, ◌>>=◌,
}
use manta_indexer.Store.Bind.{bind-ok}

module _ {e : External} where
  abbrev pub Untouched : World e → World e → Type 0
  Untouched w w' = (w'.tables ≡ w.tables) × (w'.cache ≡ w.cache)

  -- A failure comes with nothing changed.
  abbrev pub AtomicAt : {A : Type 0} → World e → Result A × World e → Type 0
  AtomicAt w (ok a, w') = Unit
  AtomicAt w (err x, w') = Untouched w w'

  abbrev pub Atomic : {A : Type 0} → Action e A → Type 0
  Atomic m = (w : World e) → AtomicAt w (m w)

  abbrev pub Quiet : {A : Type 0} → Action e A → Type 0
  Quiet m = (w : World e) → Untouched w (m w).1

  abbrev pub SparesCache : {A : Type 0} → Action e A → Type 0
  SparesCache m = (w : World e) → (m w).1.cache ≡ w.cache

  abbrev pub Succeeds : {A : Type 0} → Action e A → Type 0
  Succeeds {A} m = (w : World e) → (a : A) × (w' : World e) × (m w ≡ (ok a, w'))

module _ {e : External} {A : Type 0} where
  from_earlier :
      (w w' : World e) (p : Result A × World e) → Untouched w w' → AtomicAt w' p → AtomicAt w p
  from_earlier w w' (ok a, w'') q h = tt
  from_earlier w w' (err x, w'') q h = (h.0 ∙ q.0, h.1 ∙ q.1)

  pub or_raise-Quiet : (o : Option A) (x : Failure) → Quiet {e = e} (or_raise o x)
  or_raise-Quiet none x w = (refl, refl)
  or_raise-Quiet (some a) x w = (refl, refl)

  pub statement-SparesCache : (run : Tables → A × Tables) → SparesCache {e = e} (statement run)
  unfolding statement
  statement-SparesCache run w = ground arith

  rolled_back_at :
      (w : World e) (p : Result A × World e)
      → p.1.cache ≡ w.cache
      → AtomicAt w (in_transaction (λ _. p) w)
  unfolding in_transaction
  rolled_back_at w (ok a, w') q = tt
  rolled_back_at w (err x, w') q = (refl, q)

  -- A transaction that fails leaves the tables as they were before it.
  pub in_transaction-Atomic : (m : Action e A) → SparesCache m → Atomic (in_transaction m)
  unfolding in_transaction
  in_transaction-Atomic m spares w = rolled_back_at w (m w) (spares w)

module _ {e : External} {A B : Type 0} where
  -- How a chain goes on from what its first action gives.
  abbrev onward : (A → Action e B) → Result A × World e → Result B × World e
  onward f p = ((λ _. p) >>= f) p.1

  Quiet-then_at :
      (f : A → Action e B) (w : World e) (p : Result A × World e)
      → Untouched w p.1
      → ((a : A) → Atomic (f a))
      → AtomicAt w (onward f p)
  unfolding ◌>>=◌
  Quiet-then_at f w (ok a, w') q atomic = from_earlier w w' (f a w') q (atomic a w')
  Quiet-then_at f w (err x, w') q atomic = q

  pub Quiet-then :
      (m : Action e A) (f : A → Action e B) → Quiet m → ((a : A) → Atomic (f a)) → Atomic (m >>= f)
  unfolding ◌>>=◌
  Quiet-then m f quiet atomic w = Quiet-then_at f w (m w) (quiet w) atomic

  Quiet-all_at :
      (f : A → Action e B) (w : World e) (p : Result A × World e)
      → Untouched w p.1
      → ((a : A) → Quiet (f a))
      → Untouched w (onward f p).1
  unfolding ◌>>=◌
  Quiet-all_at f w (ok a, w') q quiet = ((quiet a w').0 ∙ q.0, (quiet a w').1 ∙ q.1)
  Quiet-all_at f w (err x, w') q quiet = q

  pub Quiet-all :
      (m : Action e A) (f : A → Action e B) → Quiet m → ((a : A) → Quiet (f a)) → Quiet (m >>= f)
  unfolding ◌>>=◌
  Quiet-all m f quiet rest w = Quiet-all_at f w (m w) (quiet w) rest

  spares_all_at :
      (f : A → Action e B) (w : World e) (p : Result A × World e)
      → p.1.cache ≡ w.cache
      → ((a : A) → SparesCache (f a))
      → (onward f p).1.cache ≡ w.cache
  unfolding ◌>>=◌
  spares_all_at f w (ok a, w') q rest = rest a w' ∙ q
  spares_all_at f w (err x, w') q rest = q

  pub spares_all :
      (m : Action e A) (f : A → Action e B)
      → SparesCache m
      → ((a : A) → SparesCache (f a))
      → SparesCache (m >>= f)
  unfolding ◌>>=◌
  spares_all m f spares rest w = spares_all_at f w (m w) (spares w) rest

  Atomic-then_at :
      (f : A → Action e B) (w : World e) (p : Result A × World e)
      → AtomicAt w p
      → ((a : A) → Succeeds (f a))
      → AtomicAt w (onward f p)
  unfolding ◌>>=◌
  Atomic-then_at f w (ok a, w') q total = let (b, w'', runs) = total a w' in rw runs tt
  Atomic-then_at f w (err x, w') q total = q

  pub Atomic-then :
      (m : Action e A) (f : A → Action e B)
      → Atomic m
      → ((a : A) → Succeeds (f a))
      → Atomic (m >>= f)
  unfolding ◌>>=◌
  Atomic-then m f atomic total w = Atomic-then_at f w (m w) (atomic w) total

  pub Succeeds-all :
      (m : Action e A) (f : A → Action e B)
      → Succeeds m
      → ((a : A) → Succeeds (f a))
      → Succeeds (m >>= f)
  Succeeds-all m f first rest w =
      let (a, w', runs) = first w in
      let (b, w'', more) = rest a w' in (b, w'', bind-ok m f runs ∙ more)
