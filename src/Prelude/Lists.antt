-- ===== src/Prelude/Lists.antt =====
-- Lists measured and cut by native numbers, under the library's names, and predicates on them.
use mathlib.Core.Logic.{◌⊎◌}
use Prim.Native.Nat.{ℕ, zero, suc, ◌+◌, min}
use mathlib.Core.Path.{◌≡◌, refl}
use mathlib.Core.Bool.{Bool, false, ◌||◌}
use mathlib.Core.List.{List, [], ◌∷◌, ◌++◌}
use mathlib.Core.Option.{Option, none, some}
use native.Mathlib.Omega.{arith}

module _ {ℓ} {A : Type ℓ} where
  abbrev pub length : List A → ℕ
  length [] = 0
  length (x ∷ xs) = suc (length xs)

  abbrev pub get_elem? : List A → ℕ → Option A
  get_elem? [] i = none
  get_elem? (x ∷ xs) zero = some x
  get_elem? (x ∷ xs) (suc i) = get_elem? xs i

  abbrev pub take : ℕ → List A → List A
  take zero xs = []
  take (suc n) [] = []
  take (suc n) (x ∷ xs) = x ∷ take n xs

  abbrev pub drop : ℕ → List A → List A
  drop zero xs = xs
  drop (suc n) [] = []
  drop (suc n) (x ∷ xs) = drop n xs

  pub length-append : (xs ys : List A) → length (xs ++ ys) ≡ length xs + length ys
  length-append [] ys = omega arith
  length-append (x ∷ xs) ys = omega (arith, length-append xs ys)

  pub length-take : (n : ℕ) (xs : List A) → length (take n xs) ≡ min n (length xs)
  length-take zero xs = omega arith
  length-take (suc n) [] = omega arith
  length-take (suc n) (x ∷ xs) = omega (arith, length-take n xs)

  pub take-append-drop : (n : ℕ) (xs : List A) → take n xs ++ drop n xs ≡ xs
  take-append-drop zero xs = refl
  take-append-drop (suc n) [] = refl
  take-append-drop (suc n) (x ∷ xs) = rw (take-append-drop n xs)

-- Every element satisfies the predicate.
abbrev pub All {ℓ κ} : {A : Type ℓ} → (A → Type κ) → List A → Type κ
All P [] = Unit
All P (x ∷ xs) = P x × All P xs

-- Some element passes the test.
abbrev pub any {ℓ} : {A : Type ℓ} → (A → Bool) → List A → Bool
any p [] = false
any p (x ∷ xs) = p x || any p xs

-- Two lists of one length, related place by place.
abbrev pub Each {ℓ} : {A : Type ℓ} → (A → A → Type 0) → List A → List A → Type 0
Each R [] [] = Unit
Each R [] (y ∷ ys) = ⊥
Each R (x ∷ xs) [] = ⊥
Each R (x ∷ xs) (y ∷ ys) = R x y × Each R xs ys

module _ {ℓ} {A : Type ℓ} where
  pub Each-refl : (R : A → A → Type 0) → ((a : A) → R a a) → (xs : List A) → Each R xs xs
  Each-refl R h [] = tt
  Each-refl R h (x ∷ xs) = (h x, Each-refl R h xs)

  pub Each-map :
      (R S : A → A → Type 0)
      → ((a b : A) → R a b → S a b)
      → (xs ys : List A) → Each R xs ys
      → Each S xs ys
  Each-map R S f [] [] h = tt
  Each-map R S f [] (y ∷ ys) h = h
  Each-map R S f (x ∷ xs) [] h = h
  Each-map R S f (x ∷ xs) (y ∷ ys) h = (f x y h.0, Each-map R S f xs ys h.1)

  pub Each-trans :
      (R S T : A → A → Type 0)
      → ((a b c : A) → R a b → S b c → T a c)
      → (xs ys zs : List A) → Each R xs ys
      → Each S ys zs
      → Each T xs zs
  Each-trans R S T f [] [] zs h k = Each-empty zs k
    where
      Each-empty : (zs : List A) → Each S [] zs → Each T [] zs
      Each-empty [] k = tt
      Each-empty (z ∷ zs) k = k
  Each-trans R S T f [] (y ∷ ys) zs h k = absurd h
  Each-trans R S T f (x ∷ xs) [] zs h k = absurd h
  Each-trans R S T f (x ∷ xs) (y ∷ ys) [] h k = absurd k
  Each-trans R S T f (x ∷ xs) (y ∷ ys) (z ∷ zs) h k =
      (f x y z h.0 k.0, Each-trans R S T f xs ys zs h.1 k.1)

-- Membership, by cases on the list.
abbrev pub Mem : {A : Type 0} → A → List A → Type 0
Mem x [] = ⊥
Mem x (y ∷ ys) = (x ≡ y) ⊎ Mem x ys
