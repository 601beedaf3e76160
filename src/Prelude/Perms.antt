-- ===== src/Prelude/Perms.antt =====
-- Rearrangements of lists: `Permᴰ` of the library, against native lengths and maps.
use Prim.Native.Nat.{ℕ, zero, suc, ◌+◌}
use mathlib.Core.Bool.{Bool, true, false}
use mathlib.Core.Option.{Option, some}
use mathlib.Core.Logic.{inl, inr}
use native.Mathlib.Omega.{arith}
use mathlib.Core.Path.{◌≡◌, refl, sym, ap, ap₂, subst, ◌∙◌}
use mathlib.Core.List.{List, [], ◌∷◌, ◌++◌, map, Permᴰ}
use manta_indexer.Prelude.Tests.{Bool-cases}
use manta_indexer.Prelude.Lists.{length, filter}
use manta_indexer.Prelude.Slices.{get_elem?, get_elem?-drop, get_elem?-take, take, drop, numbered}

-- Every element of a list satisfies `P`.
abbrev pub All {ℓ κ} : {A : Type ℓ} → (A → Type κ) → List A → Type κ
All P [] = Unit
All P (x ∷ xs) = P x × All P xs

module _ {ℓ} {A : Type ℓ} where
  pub perm-length : {xs ys : List A} → Permᴰ xs ys → length xs ≡ length ys
  perm-length Permᴰ.nil = refl
  perm-length (Permᴰ.cons e p) = ap suc (perm-length p)
  perm-length (Permᴰ.swap e e') = refl
  perm-length (Permᴰ.trans p q) = perm-length p ∙ perm-length q

  head_or : A → List A → A
  head_or d [] = d
  head_or d (x ∷ xs) = x

  tail_of : List A → List A
  tail_of [] = []
  tail_of (x ∷ xs) = xs

  ∷-head : {x y : A} {xs ys : List A} → (x ∷ xs) ≡ (y ∷ ys) → x ≡ y
  unfolding head_or
  ∷-head {x} e = ap (head_or x) e

  ∷-tail : {x y : A} {xs ys : List A} → (x ∷ xs) ≡ (y ∷ ys) → xs ≡ ys
  unfolding tail_of
  ∷-tail e = ap tail_of e

  module _ {κ} {B : Type κ} (f : B → A) where
    -- A rearrangement of an image is the image of a rearrangement.
    pub perm-map_inv :
        {xs ys : List A}
        → Permᴰ xs ys
        → (bs : List B) → ys ≡ map f bs
        → (cs : List B) × (xs ≡ map f cs) × Permᴰ cs bs
    perm-map_inv Permᴰ.nil [] e = ([], refl, Permᴰ.nil)
    perm-map_inv Permᴰ.nil (b ∷ bs) e = absurd (cc e)
    perm-map_inv (Permᴰ.cons h p) [] e = absurd (cc e)
    perm-map_inv (Permᴰ.cons h p) (b ∷ bs) e =
        let (cs, q, r) = perm-map_inv p bs (∷-tail e) in
        (b ∷ cs, ap₂ ◌∷◌ (h ∙ ∷-head e) q, Permᴰ.cons refl r)
    perm-map_inv (Permᴰ.swap h h') [] e = absurd (cc e)
    perm-map_inv (Permᴰ.swap h h') (b ∷ []) e = absurd (cc (∷-tail e))
    perm-map_inv (Permᴰ.swap h h') (b ∷ b' ∷ bs) e = (
      b' ∷ b ∷ bs,
      ap₂ ◌∷◌ (h ∙ ∷-head (∷-tail e)) (ap₂ ◌∷◌ (h' ∙ ∷-head e) (∷-tail (∷-tail e))),
      Permᴰ.swap refl refl,
    )
    perm-map_inv (Permᴰ.trans p q) bs e =
        let (cs, c, r) = perm-map_inv q bs e in
        let (ds, d, s) = perm-map_inv p cs c in (ds, d, Permᴰ.trans s r)

  module _ {κ} (P : A → Type κ) where
    pub All-perm : {xs ys : List A} → Permᴰ xs ys → All P ys → All P xs
    All-perm Permᴰ.nil h = tt
    All-perm (Permᴰ.cons e p) h = (subst P (sym e) h.0, All-perm p h.1)
    All-perm (Permᴰ.swap e e') h = (subst P (sym e) h.1.0, (subst P (sym e') h.0, h.1.1))
    All-perm (Permᴰ.trans p q) h = All-perm p (All-perm q h)

module _ {ℓ} {A : Type ℓ} where
  pub All-filter {κ} :
      (P : A → Type κ) (p : A → Bool) (xs : List A) → All P xs → All P (filter p xs)
  All-filter P p [] h = h
  All-filter P p (x ∷ xs) h = elim (Bool-cases (p x)) [
    | inl e ↦ rw e (h.0, All-filter P p xs h.1)
    | inr e ↦ rw e (All-filter P p xs h.1)
  ]

  pub All-numbered :
      (f : ℕ → Option A) (i : ℕ) (ys : List A)
      → ((j : ℕ) (y : A) → get_elem? ys j ≡ some y → f (i + j) ≡ some y)
      → All (λ (q : ℕ × A). f q.0 ≡ some q.1) (numbered i ys)
  All-numbered f i [] h = tt
  All-numbered f i (y ∷ ys) h = (
    ap f (omega arith) ∙ h 0 y refl,
    All-numbered f (i + 1) ys (λ j z e. ap f (omega arith) ∙ h (suc j) z e),
  )

  -- A slice's elements stand in the list at their numbers.
  pub All-slice :
      (i m : ℕ) (xs : List A)
      → All (λ (q : ℕ × A). get_elem? xs q.0 ≡ some q.1) (numbered i (take m (drop i xs)))
  All-slice i m xs =
      All-numbered (get_elem? xs) i (take m (drop i xs))
        (λ j y e. sym (get_elem?-drop i j xs) ∙ get_elem?-take m j (drop i xs) y e)

pub perm-map {ℓ κ} :
    {A : Type ℓ} {B : Type κ} (f : A → B) {xs ys : List A}
    → Permᴰ xs ys
    → Permᴰ (map f xs) (map f ys)
perm-map f Permᴰ.nil = Permᴰ.nil
perm-map f (Permᴰ.cons e p) = Permᴰ.cons (ap f e) (perm-map f p)
perm-map f (Permᴰ.swap e e') = Permᴰ.swap (ap f e) (ap f e')
perm-map f (Permᴰ.trans p q) = Permᴰ.trans (perm-map f p) (perm-map f q)

pub map-append {ℓ κ} :
    {A : Type ℓ} {B : Type κ} (f : A → B) (xs ys : List A) → map f (xs ++ ys) ≡ map f xs ++ map f ys
map-append f [] ys = refl
map-append f (x ∷ xs) ys = ap (λ l. f x ∷ l) (map-append f xs ys)

pub map-numbered {ℓ} :
    {A : Type ℓ} (i : ℕ) (xs : List A) → map (λ (q : ℕ × A). q.1) (numbered i xs) ≡ xs
map-numbered i [] = refl
map-numbered i (x ∷ xs) = ap (λ l. x ∷ l) (map-numbered (i + 1) xs)

pub All-zip {ℓ κ κ' κ''} :
    {A : Type ℓ} {P : A → Type κ} {Q : A → Type κ'} {R : A → Type κ''}
    → ((x : A) → P x → Q x → R x)
    → (xs : List A) → All P xs
    → All Q xs
    → All R xs
All-zip f [] p q = tt
All-zip f (x ∷ xs) p q = (f x p.0 q.0, All-zip f xs p.1 q.1)

module _ {ℓ κ} {A : Type ℓ} (P : A → Type κ) where
  pub All-append : (xs ys : List A) → All P xs → All P ys → All P (xs ++ ys)
  All-append [] ys h k = k
  All-append (x ∷ xs) ys h k = (h.0, All-append xs ys h.1 k)

  pub All-take : (n : ℕ) (xs : List A) → All P xs → All P (take n xs)
  All-take zero xs h = tt
  All-take (suc n) [] h = tt
  All-take (suc n) (x ∷ xs) h = (h.0, All-take n xs h.1)

  pub All-drop : (n : ℕ) (xs : List A) → All P xs → All P (drop n xs)
  All-drop zero xs h = h
  All-drop (suc n) [] h = tt
  All-drop (suc n) (x ∷ xs) h = All-drop n xs h.1

module _ {ℓ} {A : Type ℓ} (p : A → Bool) where
  pub filter_accepts : (xs : List A) → All (λ x. p x ≡ true) xs → filter p xs ≡ xs
  filter_accepts [] h = refl
  filter_accepts (x ∷ xs) h = rw h.0 (ap (◌∷◌ x) (filter_accepts xs h.1))

  pub filter_rejects : (xs : List A) → All (λ x. p x ≡ false) xs → filter p xs ≡ []
  filter_rejects [] h = refl
  filter_rejects (x ∷ xs) h = rw h.0 (filter_rejects xs h.1)

  -- How many pass a test does not depend on the order.
  pub length-filter_perm :
      {xs ys : List A} → Permᴰ xs ys → length (filter p xs) ≡ length (filter p ys)
  length-filter_perm Permᴰ.nil = refl
  length-filter_perm (Permᴰ.cons {b = b} {l₂ = l2} q r) =
      rw q (ground (arith, length-filter_perm r))
  length-filter_perm (Permᴰ.swap q q') = rw (q, q') (ground arith)
  length-filter_perm (Permᴰ.trans q r) = length-filter_perm q ∙ length-filter_perm r
