-- ===== src/Prelude/Slices.antt =====
-- Slices of a list, numbered: `numbered k xs` pairs each element with its position from `k` on.
use Prim.Native.Nat.{ℕ, zero, suc, ◌+◌, ◌-◌, ◌≤◌, ◌<◌, min}
use mathlib.Core.Path.{◌≡◌, refl, ap, ◌∙◌}
use mathlib.Core.Logic.{inl, inr}
use mathlib.Core.List.{List, [], ◌∷◌, ◌++◌, map, Permᴰ}
use mathlib.Core.List.Permᴰ
use mathlib.Core.Bool.{Bool, not, ◌&&◌}
use mathlib.Core.Option.{Option, none, some}
use native.Mathlib.Omega.{arith}
use manta_indexer.Prelude.Tests.{ltb, leb, Bool-cases}
use manta_indexer.Prelude.Lists.{length, filter, member, range}

module _ {ℓ} {A : Type ℓ} where
  abbrev pub get_elem? : List A → ℕ → Option A
  get_elem? [] i = none
  get_elem? (x ∷ xs) zero = some x
  get_elem? (x ∷ xs) (suc i) = get_elem? xs i

  abbrev pub take : ℕ → List A → List A
  take zero xs = []
  take (suc n) [] = []
  take (suc n) (x ∷ xs) = x ∷ take n xs

  abbrev pub drop : ℕ → List A → List A
  drop zero xs = xs
  drop (suc n) [] = []
  drop (suc n) (x ∷ xs) = drop n xs

  pub take-nil : (n : ℕ) → take n [] ≡ []
  take-nil zero = refl
  take-nil (suc n) = refl

  pub length-take : (n : ℕ) (xs : List A) → length (take n xs) ≡ min n (length xs)
  length-take zero xs = omega arith
  length-take (suc n) [] = omega arith
  length-take (suc n) (x ∷ xs) = omega (arith, length-take n xs)

  pub length-drop : (n : ℕ) (xs : List A) → length (drop n xs) ≡ length xs - n
  length-drop zero xs = omega arith
  length-drop (suc n) [] = omega arith
  length-drop (suc n) (x ∷ xs) = omega (arith, length-drop n xs)

  pub get_elem?-drop : (n j : ℕ) (xs : List A) → get_elem? (drop n xs) j ≡ get_elem? xs (n + j)
  get_elem?-drop zero j xs = ap (get_elem? xs) (omega arith)
  get_elem?-drop (suc n) j [] = refl
  get_elem?-drop (suc n) j (x ∷ xs) =
      get_elem?-drop n j xs
      ∙ ap (get_elem? (x ∷ xs)) (let e : suc (n + j) ≡ suc n + j = omega arith in e)

  pub get_elem?-lt : (xs : List A) (i : ℕ) (x : A) → get_elem? xs i ≡ some x → i < length xs
  get_elem?-lt [] i x h = ground arith
  get_elem?-lt (y ∷ xs) zero x h = omega arith
  get_elem?-lt (y ∷ xs) (suc i) x h = omega (arith, get_elem?-lt xs i x h)

  abbrev pub numbered : ℕ → List A → List (ℕ × A)
  numbered k [] = []
  numbered k (x ∷ xs) = (k, x) ∷ numbered (k + 1) xs

  pub length-numbered : (k : ℕ) (xs : List A) → length (numbered k xs) ≡ length xs
  length-numbered k [] = refl
  length-numbered k (x ∷ xs) = ap suc (length-numbered (k + 1) xs)

  pub numbered-append :
      (k : ℕ) (xs ys : List A)
      → numbered k (xs ++ ys) ≡ numbered k xs ++ numbered (k + length xs) ys
  numbered-append k [] ys = ap (λ n. numbered n ys) (omega arith)
  numbered-append k (x ∷ xs) ys =
      ap (◌∷◌ (k, x)) (
        numbered-append (k + 1) xs ys
        ∙ ap (λ n. numbered (k + 1) xs ++ numbered n ys) (omega arith))

  -- The elements that pass a test and those that do not are all of them, in another order.
  pub filter-perm :
      (p : A → Bool) (xs : List A) → Permᴰ (filter p xs ++ filter (λ x. not (p x)) xs) xs
  filter-perm p [] = Permᴰ.refl []
  filter-perm p (x ∷ xs) = elim (Bool-cases (p x)) [
    | inl e ↦ rw e (Permᴰ.cons refl (filter-perm p xs))
    | inr e ↦ rw e (
        Permᴰ.trans (Permᴰ.middle x (filter p xs) (filter (λ y. not (p y)) xs))
          (Permᴰ.cons refl (filter-perm p xs)))
  ]

  pub filter_congr :
      (p q : A → Bool) (xs : List A) → ((x : A) → p x ≡ q x) → filter p xs ≡ filter q xs
  filter_congr p q [] h = refl
  filter_congr p q (x ∷ xs) h = rw (h x, filter_congr p q xs h)

  pub filter-filter :
      (p q : A → Bool) (xs : List A) → filter (λ x. p x && q x) xs ≡ filter q (filter p xs)
  filter-filter p q [] = refl
  filter-filter p q (x ∷ xs) = ground (arith, filter-filter p q xs)

  pub filter-map {κ} :
      {B : Type κ} (f : B → A) (p : A → Bool) (xs : List B)
      → filter p (map f xs) ≡ map f (filter (λ x. p (f x)) xs)
  filter-map f p [] = refl
  filter-map f p (x ∷ xs) = ground (arith, filter-map f p xs)

-- Whether an index is among the `m` from `i` on.
abbrev pub in_window : ℕ → ℕ → ℕ → Bool
in_window i m u = leb i u && ltb u (i + m)

-- The numbers of a window that pass a test are in it and pass the test.
pub member-window :
    (q : ℕ → Bool) (i m u : ℕ) → member u (filter q (range i m)) ≡ (in_window i m u && q u)
member-window q i zero u = ground arith
member-window q i (suc m) u = ground (arith, member-window q (i + 1) m u, ap q)

module _ {ℓ} {A : Type ℓ} where
  -- From the window's start on, a slice ends at the window's end.
  numbered_to :
      (a b k n : ℕ) (xs : List A)
      → a ≤ k
      → n ≡ b - k
      → filter (λ (p : ℕ × A). leb a p.0 && ltb p.0 b) (numbered k xs) ≡ numbered k (take n xs)
  numbered_to a b k zero [] h e = refl
  numbered_to a b k (suc n) [] h e = refl
  numbered_to a b k zero (x ∷ xs) h e =
      ground (arith, numbered_to a b (k + 1) zero xs (omega arith) (omega arith))
  numbered_to a b k (suc n) (x ∷ xs) h e =
      ground (arith, numbered_to a b (k + 1) n xs (omega arith) (omega arith))

  -- The elements whose number is in a window are a slice.
  pub filter-window :
      (k i m a : ℕ) (xs : List A)
      → a ≡ k + i
      → filter (λ (p : ℕ × A). in_window a m p.0) (numbered k xs) ≡ numbered a (take m (drop i xs))
  filter-window k zero m a xs e =
      let h : a ≡ k = omega arith in rw h (numbered_to k (k + m) k m xs (omega arith) (omega arith))
  filter-window k (suc i) zero a [] e = refl
  filter-window k (suc i) (suc m) a [] e = refl
  filter-window k (suc i) m a (x ∷ xs) e =
      ground (arith, filter-window (k + 1) i m a xs (omega arith))

module _ {ℓ} {A : Type ℓ} where
  pub get_elem?-take :
      (m j : ℕ) (xs : List A) (y : A) → get_elem? (take m xs) j ≡ some y → get_elem? xs j ≡ some y
  get_elem?-take zero j xs y h = absurd (cc h)
  get_elem?-take (suc m) j [] y h = h
  get_elem?-take (suc m) zero (x ∷ xs) y h = h
  get_elem?-take (suc m) (suc j) (x ∷ xs) y h = get_elem?-take m j xs y h

module _ {ℓ} {A : Type ℓ} where
  -- What stands in a list stands in it still when more follow.
  pub get_elem?-append_left :
      (xs ys : List A) (i : ℕ) (x : A) → get_elem? xs i ≡ some x → get_elem? (xs ++ ys) i ≡ some x
  get_elem?-append_left [] ys i x h = absurd (cc h)
  get_elem?-append_left (y ∷ xs) ys zero x h = h
  get_elem?-append_left (y ∷ xs) ys (suc i) x h = get_elem?-append_left xs ys i x h

  pub get_elem?-append_right :
      (xs ys : List A) (j : ℕ) → get_elem? (xs ++ ys) (length xs + j) ≡ get_elem? ys j
  get_elem?-append_right [] ys j = ap (get_elem? ys) (omega arith)
  get_elem?-append_right (x ∷ xs) ys j =
      ap (get_elem? (x ∷ xs ++ ys))
        (let e : suc (length xs) + j ≡ suc (length xs + j) = omega arith in e)
      ∙ get_elem?-append_right xs ys j
