-- ===== src/Base/Lists.antt =====
-- Lists measured and indexed by native numbers, under the library's names.
use Prim.Native.Nat.{ℕ, zero, suc, ◌+◌, ◌<◌}
use mathlib.Core.Path.{◌≡◌, refl, ap, subst}
use mathlib.Core.Logic.{◌≢◌, ◌⊎◌, inl, inr}
use mathlib.Core.List.{List, [], ◌∷◌, ◌++◌}
use mathlib.Core.Option.{Option, none, some}
use native.Mathlib.Omega.{arith}

module _ {ℓ} {A : Type ℓ} where
  abbrev pub length : List A → ℕ
  length [] = 0
  length (x ∷ xs) = suc (length xs)

  abbrev pub get_elem? : List A → ℕ → Option A
  get_elem? [] i = none
  get_elem? (x ∷ xs) zero = some x
  get_elem? (x ∷ xs) (suc i) = get_elem? xs i

  -- A write out of bounds changes nothing.
  abbrev pub set : List A → ℕ → A → List A
  set [] i v = []
  set (x ∷ xs) zero v = v ∷ xs
  set (x ∷ xs) (suc i) v = x ∷ set xs i v

  abbrev pub replicate : ℕ → A → List A
  replicate zero a = []
  replicate (suc n) a = a ∷ replicate n a

  pub length-append : (xs ys : List A) → length (xs ++ ys) ≡ length xs + length ys
  length-append [] ys = omega arith
  length-append (x ∷ xs) ys = omega (arith, length-append xs ys)

  pub length-set : (xs : List A) (i : ℕ) (v : A) → length (set xs i v) ≡ length xs
  length-set [] i v = refl
  length-set (x ∷ xs) zero v = refl
  length-set (x ∷ xs) (suc i) v = ap suc (length-set xs i v)

  pub length-replicate : (n : ℕ) (a : A) → length (replicate n a) ≡ n
  length-replicate zero a = refl
  length-replicate (suc n) a = ap suc (length-replicate n a)

  pub get_elem?-of_lt : (xs : List A) (i : ℕ) → i < length xs → (a : A) × (get_elem? xs i ≡ some a)
  get_elem?-of_lt [] i h = elim h [ ]
  get_elem?-of_lt (x ∷ xs) zero h = (x, refl)
  get_elem?-of_lt (x ∷ xs) (suc i) h = get_elem?-of_lt xs i (omega arith)

  pub get_elem?-set_self :
      (xs : List A) (i : ℕ) (v : A) → i < length xs → get_elem? (set xs i v) i ≡ some v
  get_elem?-set_self [] i v h = elim h [ ]
  get_elem?-set_self (x ∷ xs) zero v h = refl
  get_elem?-set_self (x ∷ xs) (suc i) v h = get_elem?-set_self xs i v (omega arith)

  pub get_elem?-set_ne :
      (xs : List A) (i j : ℕ) (v : A) → i ≢ j → get_elem? (set xs i v) j ≡ get_elem? xs j
  get_elem?-set_ne [] i j v h = refl
  get_elem?-set_ne (x ∷ xs) zero zero v h = absurd (h refl)
  get_elem?-set_ne (x ∷ xs) zero (suc j) v h = refl
  get_elem?-set_ne (x ∷ xs) (suc i) zero v h = refl
  get_elem?-set_ne (x ∷ xs) (suc i) (suc j) v h = get_elem?-set_ne xs i j v (λ e. h (ap suc e))

  -- A write of what is there.
  pub set-get_elem? : (xs : List A) (i : ℕ) (v : A) → get_elem? xs i ≡ some v → set xs i v ≡ xs
  set-get_elem? [] i v e = refl
  set-get_elem? (x ∷ xs) zero v e = let same : v ≡ x = cc in rw same refl
  set-get_elem? (x ∷ xs) (suc i) v e = ap (λ ys. x ∷ ys) (set-get_elem? xs i v e)

  pub set-set : (xs : List A) (i : ℕ) (v w : A) → set (set xs i v) i w ≡ set xs i w
  set-set [] i v w = refl
  set-set (x ∷ xs) zero v w = refl
  set-set (x ∷ xs) (suc i) v w = ap (λ ys. x ∷ ys) (set-set xs i v w)

  pub length_of_get_elem? : (xs : List A) (i : ℕ) (x : A) → get_elem? xs i ≡ some x → i < length xs
  length_of_get_elem? [] i x e = absurd (cc e)
  length_of_get_elem? (y ∷ xs) zero x e = omega arith
  length_of_get_elem? (y ∷ xs) (suc i) x e = omega (arith, length_of_get_elem? xs i x e)

  -- A property of what stands at each place is kept by a write of something that has it there.
  pub get_elem?-set_all {κ} :
      (P : ℕ → A → Type κ) (xs : List A) (i : ℕ) (v : A)
      → ((j : ℕ) (x : A) → get_elem? xs j ≡ some x → P j x)
      → P i v
      → (j : ℕ) (x : A) → get_elem? (set xs i v) j ≡ some x
      → P j x
  get_elem?-set_all P [] i v h p j x e = absurd (cc e)
  get_elem?-set_all P (y ∷ xs) zero v h p zero x e = let same : v ≡ x = cc in subst (P 0) same p
  get_elem?-set_all P (y ∷ xs) zero v h p (suc j) x e = h (suc j) x e
  get_elem?-set_all P (y ∷ xs) (suc i) v h p zero x e = h 0 x e
  get_elem?-set_all P (y ∷ xs) (suc i) v h p (suc j) x e =
      get_elem?-set_all (λ k. P (suc k)) xs i v (λ k. h (suc k)) p j x e

  pub get_elem?-replicate :
      (n : ℕ) (a : A) (i : ℕ) (x : A) → get_elem? (replicate n a) i ≡ some x → x ≡ a
  get_elem?-replicate zero a i x e = absurd (cc e)
  get_elem?-replicate (suc n) a zero x e = cc
  get_elem?-replicate (suc n) a (suc i) x e = get_elem?-replicate n a i x e

  -- A property of every element is kept by one more element that has it.
  pub get_elem?-append_all {κ} :
      (P : A → Type κ) (xs : List A) (v : A)
      → ((j : ℕ) (x : A) → get_elem? xs j ≡ some x → P x)
      → P v
      → (j : ℕ) (x : A) → get_elem? (xs ++ (v ∷ [])) j ≡ some x
      → P x
  get_elem?-append_all P [] v h p zero x e = let same : v ≡ x = cc in subst P same p
  get_elem?-append_all P [] v h p (suc j) x e = absurd (cc e)
  get_elem?-append_all P (y ∷ xs) v h p zero x e = h 0 x e
  get_elem?-append_all P (y ∷ xs) v h p (suc j) x e =
      get_elem?-append_all P xs v (λ k. h (suc k)) p j x e

  pub get_elem?-append :
      (xs ys : List A) (i : ℕ) (a : A) → get_elem? xs i ≡ some a → get_elem? (xs ++ ys) i ≡ some a
  get_elem?-append [] ys i a e = absurd (cc e)
  get_elem?-append (x ∷ xs) ys zero a e = e
  get_elem?-append (x ∷ xs) ys (suc i) a e = get_elem?-append xs ys i a e

  -- Either all elements are of the one kind, or there is one of the other.
  pub all_or_one {κ κ'} :
      {P : A → Type κ} {Q : A → Type κ'}
      → ((x : A) → P x ⊎ Q x)
      → (xs : List A)
      → ((i : ℕ) (x : A) → get_elem? xs i ≡ some x → P x)
        ⊎ ((i : ℕ) × (x : A) × (get_elem? xs i ≡ some x) × Q x)
  all_or_one kind [] = inl (λ i x e. absurd (cc e))
  all_or_one {P = P} kind (y ∷ xs) = elim (kind y) [
    | inr q ↦ inr (0, y, refl, q)
    | inl p ↦ elim (all_or_one kind xs) [
      | inr (i, x, e, q) ↦ inr (suc i, x, e, q)
      | inl h ↦ inl (each p h)
    ]
  ]
    where
      each :
          P y
          → ((i : ℕ) (x : A) → get_elem? xs i ≡ some x → P x)
          → (i : ℕ) (x : A) → get_elem? (y ∷ xs) i ≡ some x
          → P x
      each p h zero x e = let same : y ≡ x = cc in subst P same p
      each p h (suc i) x e = h i x e

  -- A predicate on every element; it computes to tuples.
  abbrev pub All {κ} : (A → Type κ) → List A → Type κ
  All P [] = Unit
  All P (x ∷ xs) = P x × All P xs

-- The total weight of a list. A weight stands for any way to count: two lists with the same total
-- for every weight have the same elements, each as often.
module _ {ℓ} {A : Type ℓ} (w : A → ℕ) where
  abbrev pub weigh : List A → ℕ
  weigh [] = 0
  weigh (x ∷ xs) = w x + weigh xs

  pub weigh-append : (xs ys : List A) → weigh (xs ++ ys) ≡ weigh xs + weigh ys
  weigh-append [] ys = omega arith
  weigh-append (x ∷ xs) ys = omega (arith, weigh-append xs ys)

  pub weigh_zero :
      (xs : List A) → ((i : ℕ) (x : A) → get_elem? xs i ≡ some x → w x ≡ 0) → weigh xs ≡ 0
  weigh_zero [] h = refl
  weigh_zero (x ∷ xs) h = omega (arith, h 0 x refl, weigh_zero xs (λ i. h (suc i)))

  pub weigh-set :
      (xs : List A) (i : ℕ) (x y : A)
      → get_elem? xs i ≡ some x
      → weigh (set xs i y) + w x ≡ weigh xs + w y
  weigh-set [] i x y e = absurd (cc e)
  weigh-set (z ∷ xs) zero x y e = let same : z ≡ x = cc in rw same (omega arith)
  weigh-set (z ∷ xs) (suc i) x y e = omega (arith, weigh-set xs i x y e)

abbrev pub sum : List ℕ → ℕ
sum [] = 0
sum (x ∷ xs) = x + sum xs
