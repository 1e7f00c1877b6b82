-- ===== src/Concurrency/TypeTraits.antt =====
-- lib_shared/inc/jar/concurrency/type_traits.hpp: what the trait `invocable` reads off the type of a
-- function, and what its users, `make_callback_receiver` and `then`, make of it. `none` is code that
-- does not compile. `volatile` is left out. `movable` says of each class whether its objects can be
-- made from rvalues; functions are given to the library as rvalues of types that can be moved.
pub mod Accepted
pub mod Members
use cmake_template.Base.{
  ℕ, zero, suc, ◌≡◌, refl, ap, ◌∙◌, ◌↔◌, Bool, true, false, ◌&&◌, List, [], ◌∷◌, Option, none, some,
  length, get_elem?, map, arith,
}

-- The types of objects, and what references and pointers may refer to.
mutual
  pub data ObjectType : Type 0 where
    named : ℕ → ObjectType
    pointer : ReferredType → ObjectType

  pub data ReferredType : Type 0 where
    object : (is_const : Bool) → ObjectType → ReferredType
    array : (is_const : Bool) → ObjectType → (size : ℕ) → ReferredType
    function : ℕ → ReferredType

-- The type of a parameter; by value, the language has already made pointers of arrays and functions.
pub data ParameterType : Type 0 where
  value : ObjectType → ParameterType
  lvalue_ref rvalue_ref : ReferredType → ParameterType

-- `R (Args...)`; the return type `void` is `none`.
pub record Signature : Type 0 where
  pub return_type : Option ParameterType
  pub parameters : List ParameterType

-- What stands behind the parameters of a member function: nothing, `const`, or `&` and `&&`.
pub data Qualifier : Type 0 where
  unqualified const_qualified ref_qualified : Qualifier

-- The types that `invocable` may be given. `class_type` has its one call operator, where it has just
-- one that is no template: lambdas, `std::function` and other function objects.
pub record CallOperator : Type 0 where
  pub qualifier : Qualifier
  pub is_noexcept : Bool
  pub signature : Signature

pub data CallableType : Type 0 where
  function_pointer : (is_noexcept : Bool) → Signature → CallableType
  member_pointer : CallOperator → CallableType
  class_type : Option CallOperator → CallableType
  other_type : CallableType

-- `std::decay_t`
abbrev pub decay_referred : ReferredType → ObjectType
decay_referred (object c t) = t
decay_referred (array c t n) = pointer (object c t)
decay_referred (function f) = pointer (function f)

abbrev pub decay : ParameterType → ObjectType
decay (value t) = t
decay (lvalue_ref r) = decay_referred r
decay (rvalue_ref r) = decay_referred r

-- The members of a specialisation of `invocable_impl`; `size` and `arg` follow from the tuple.
pub record Invocable : Type 0 where
  pub return_type : Option ParameterType
  pub args_as_tuple : List ObjectType

abbrev pub read_signature : Signature → Invocable
read_signature s = record { return_type = s.return_type; args_as_tuple = map decay s.parameters }

-- There are specialisations for member functions with `const` behind them and with nothing.
abbrev pub specialised : Qualifier → (is_noexcept : Bool) → Signature → Option Invocable
specialised unqualified false s = some (read_signature s)
specialised const_qualified false s = some (read_signature s)
specialised unqualified true s = none
specialised const_qualified true s = none
specialised ref_qualified b s = none

unfoldable pub invocable_impl : CallableType → Option Invocable
invocable_impl (function_pointer false s) = some (read_signature s)
invocable_impl (function_pointer true s) = none
invocable_impl (member_pointer f) = specialised f.qualifier f.is_noexcept f.signature
invocable_impl (class_type f) = none
invocable_impl other_type = none

-- `invocable`: of a class by `&Invocable::operator()`, where that names one function.
unfoldable pub invocable : CallableType → Option Invocable
unfolding invocable_impl
invocable (class_type (some f)) = invocable_impl (member_pointer f)
invocable (class_type none) = invocable_impl (class_type none)
invocable (function_pointer b s) = invocable_impl (function_pointer b s)
invocable (member_pointer f) = invocable_impl (member_pointer f)
invocable other_type = invocable_impl other_type

abbrev pub size : Invocable → ℕ
size i = length i.args_as_tuple

abbrev pub arg : (index : ℕ) → Invocable → Option ObjectType
arg index i = get_elem? i.args_as_tuple index

-- Whether an object can be made from an rvalue of its type.
abbrev pub is_movable : (movable : ℕ → Bool) → ObjectType → Bool
is_movable movable (named n) = movable n
is_movable movable (pointer r) = true

-- Whether a parameter can be initialised with an rvalue of its own decayed type.
abbrev pub takes_rvalue : (movable : ℕ → Bool) → ParameterType → Bool
takes_rvalue movable (value t) = is_movable movable t
takes_rvalue movable (lvalue_ref (object is_const t)) = is_const
takes_rvalue movable (rvalue_ref (object is_const t)) = true
takes_rvalue movable _ = false

abbrev pub take_rvalues : (movable : ℕ → Bool) → List ParameterType → Bool
take_rvalues movable [] = true
take_rvalues movable (p ∷ ps) = takes_rvalue movable p && take_rvalues movable ps

-- `std::is_invocable_v` of the type, as an rvalue, and rvalues of the types in its `args_as_tuple`; a
-- pointer to a member would want an object before them.
abbrev pub is_invocable : (movable : ℕ → Bool) → CallableType → Bool
is_invocable movable (function_pointer b s) = take_rvalues movable s.parameters
is_invocable movable (class_type (some f)) = take_rvalues movable f.signature.parameters
is_invocable movable _ = false

-- The static assertion on a type and what follows it.
abbrev pub asserted : {A : Type 0} → Bool → A → Option A
asserted true a = some a
asserted false a = none

-- The `Value` of the receiver that `make_callback_receiver` makes of a complete handler, by the number
-- of its arguments; `void` is `none`.
abbrev pub value_of_size :
    (movable : ℕ → Bool) → CallableType → List ObjectType → Option (Option ObjectType)
value_of_size movable t [] = asserted (is_invocable movable t) none
value_of_size movable t (v ∷ []) = asserted (is_invocable movable t) (some v)
value_of_size movable t (v ∷ v' ∷ vs) = none

-- The handler is an rvalue: `callback_receiver` moves it into its member.
unfoldable pub receiver_value : (movable : ℕ → Bool) → CallableType → Option (Option ObjectType)
unfolding invocable
receiver_value movable t = elim (invocable t) [
  | none ↦ none
  | some i ↦ value_of_size movable t i.args_as_tuple
]

-- `sender_adapter::result_type`: what `std::apply` of the function to its arguments returns. The
-- constructor, from which the class deduces its parameters, takes the function as an rvalue.
unfoldable pub result_type : (movable : ℕ → Bool) → CallableType → Option (Option ParameterType)
unfolding invocable
result_type movable t = elim (invocable t) [
  | none ↦ none
  | some i ↦ asserted (is_invocable movable t) i.return_type
]
