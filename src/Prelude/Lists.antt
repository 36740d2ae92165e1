-- ===== src/Prelude/Lists.antt =====
-- Lists measured and indexed by native numbers, under the library's names, and slots: an
-- allocated array as the list of what its cells hold, `none` where nothing was written.
use Prim.Native.Nat.{ℕ, zero, suc, ◌+◌, ◌-◌}
use mathlib.Core.Path.{◌≡◌, refl, ap}
use mathlib.Core.List.{List, [], ◌∷◌, ◌++◌, map}
use mathlib.Core.Option
use mathlib.Core.Option.{Option, none, some}
use native.Mathlib.Omega.{arith}

module _ {ℓ} {A : Type ℓ} where
  abbrev pub length : List A → ℕ
  length [] = 0
  length (x ∷ xs) = suc (length xs)

  abbrev pub get_elem? : List A → ℕ → Option A
  get_elem? [] i = none
  get_elem? (x ∷ xs) zero = some x
  get_elem? (x ∷ xs) (suc i) = get_elem? xs i

  abbrev pub get_or : List A → ℕ → A → A
  get_or [] i d = d
  get_or (x ∷ xs) zero d = x
  get_or (x ∷ xs) (suc i) d = get_or xs i d

  abbrev pub take : ℕ → List A → List A
  take zero xs = []
  take (suc n) [] = []
  take (suc n) (x ∷ xs) = x ∷ take n xs

  abbrev pub drop : ℕ → List A → List A
  drop zero xs = xs
  drop (suc n) [] = []
  drop (suc n) (x ∷ xs) = drop n xs

  abbrev pub replicate : ℕ → A → List A
  replicate zero a = []
  replicate (suc n) a = a ∷ replicate n a

  pub length-append : (xs ys : List A) → length (xs ++ ys) ≡ length xs + length ys
  length-append [] ys = omega arith
  length-append (x ∷ xs) ys = omega (arith, length-append xs ys)

  pub length-replicate : (n : ℕ) (a : A) → length (replicate n a) ≡ n
  length-replicate zero a = refl
  length-replicate (suc n) a = ap suc (length-replicate n a)

  -- A write to a cell of an allocated array; `none` is a write outside of it.
  abbrev pub store : List (Option A) → ℕ → A → Option (List (Option A))
  store [] i a = none
  store (x ∷ xs) zero a = some (some a ∷ xs)
  store (x ∷ xs) (suc i) a = Option.map (λ r. x ∷ r) (store xs i a)

module _ {ℓ} {A : Type ℓ} where
  pub length-map {κ} : {B : Type κ} (f : A → B) (xs : List A) → length (map f xs) ≡ length xs
  length-map f [] = refl
  length-map f (x ∷ xs) = ap suc (length-map f xs)

  -- `realloc` to `n` cells, of an array that is no larger: what was written is kept.
  abbrev pub realloc : ℕ → List (Option A) → List (Option A)
  realloc n xs = xs ++ replicate (n - length xs) none

module _ {ℓ} {A : Type ℓ} where
  -- A write behind the cells that are known.
  pub store-map-some :
      (xs : List A) (y : Option A) (r : List (Option A)) (a : A)
      → store (map some xs ++ (y ∷ r)) (length xs) a ≡ some (map some (xs ++ (a ∷ [])) ++ r)
  store-map-some [] y r a = refl
  store-map-some (x ∷ xs) y r a = ap (Option.map (λ q. some x ∷ q)) (store-map-some xs y r a)
