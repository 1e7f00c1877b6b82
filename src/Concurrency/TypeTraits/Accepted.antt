-- ===== src/Concurrency/TypeTraits/Accepted.antt =====
-- Which functions `make_callback_receiver` and `then` accept.
use cmake_template.Base.{ℕ, ◌≡◌, ◌≢◌, Bool, true, false, List, [], ◌∷◌, Option, none, some}
use cmake_template.Concurrency.TypeTraits.{
  ObjectType, object, ParameterType, value, lvalue_ref, rvalue_ref, Signature, ref_qualified,
  CallOperator, CallableType, function_pointer, class_type, is_movable,
}

-- A pointer to a function, or an object with one call operator that is not qualified by `&` or `&&`;
-- and neither is `noexcept`.
pub data Plain (t : CallableType) (s : Signature) : Type 0 where
  pointed : t ≡ function_pointer false s → Plain t s
  operator :
      (f : CallOperator)
      → t ≡ class_type (some f)
      → f.qualifier ≢ ref_qualified
      → f.is_noexcept ≡ false
      → f.signature ≡ s
      → Plain t s

module _ (movable : ℕ → Bool) where
  -- A parameter that can be given an object of type `v` that nothing else refers to.
  abbrev pub Takes : ObjectType → ParameterType → Type 0
  Takes v (value t) = (v ≡ t) × (is_movable movable t ≡ true)
  Takes v (lvalue_ref (object true t)) = v ≡ t
  Takes v (rvalue_ref (object is_const t)) = v ≡ t
  Takes v _ = ⊥

  abbrev pub TakeSome : List ParameterType → Type 0
  TakeSome [] = Unit
  TakeSome (p ∷ ps) = ((v : ObjectType) × Takes v p) × TakeSome ps

  -- The parameters of a handler that completes with a value of type `v`, or with none.
  abbrev pub Completes : Option ObjectType → List ParameterType → Type 0
  Completes none ps = ps ≡ []
  Completes (some v) ps = (p : ParameterType) × (ps ≡ p ∷ []) × Takes v p
