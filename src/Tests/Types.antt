-- ===== src/Tests/Types.antt =====
-- The traits on some types of functions and of operands.
use cmake_template.Base.{ℕ, Bool, ◌∙◌, ◌≡◌, refl, false, true, [], ◌∷◌, none, some, map, List, not}
use cmake_template.Core.TypeTraits.{
  arithmetic, null_pointer, OperandType, Equality, Check, takes_type, has_equal, is_nullable,
  null_or_number,
}
use cmake_template.Concurrency.TypeTraits.{
  ObjectType, named, pointer, object, value, lvalue_ref, Signature, unqualified, const_qualified,
  CallableType, Invocable, class_type, invocable, decay, size, arg, receiver_value, result_type,
}
use cmake_template.Concurrency.TypeTraits.Members.{
  is_input_scheduler, is_output_scheduler, get_scheduler, has_future, rr_scheduler_members,
  adapter_members, value_receiver_members, callback_receiver_members, adapted, has_future-adapted,
}

-- `short`, `int` and `float`
abbrev short_type : ObjectType
short_type = named 0

abbrev int_type : ObjectType
int_type = named 1

abbrev float_type : ObjectType
float_type = named 2

-- `int (short&, int*, float)`
abbrev three : Signature
three = record {
  return_type = some (value int_type);
  parameters =
      lvalue_ref (object false short_type)
      ∷ value (pointer (object false int_type))
      ∷ value float_type
      ∷ [];
}

abbrev mutable_lambda : CallableType
mutable_lambda =
    class_type (some (record { qualifier = unqualified; is_noexcept = false; signature = three }))

three_arguments :
    invocable mutable_lambda
    ≡ some (record {
      return_type = some (value int_type);
      args_as_tuple = short_type ∷ pointer (object false int_type) ∷ float_type ∷ [];
    })
unfolding invocable
three_arguments = refl

-- Its second argument is a pointer, and it has no fourth.
three_sizes :
    let traits : Invocable = record {
      return_type = some (value int_type);
      args_as_tuple = map decay three.parameters;
    } in
    (size traits ≡ 3)
    × (arg 1 traits ≡ some (pointer (object false int_type)))
    × (arg 3 traits ≡ none)
three_sizes = (refl, refl, refl)

-- A lambda `(int const&)` that returns nothing.
abbrev reads_int : Signature
reads_int = record { return_type = none; parameters = lvalue_ref (object true int_type) ∷ [] }

abbrev lambda_type : CallableType
lambda_type =
    class_type
      (some (record { qualifier = const_qualified; is_noexcept = false; signature = reads_int }))

-- Every class can be moved.
abbrev all_movable : ℕ → Bool
all_movable n = true

lambda_completes : receiver_value all_movable lambda_type ≡ some (some int_type)
unfolding receiver_value
lambda_completes = refl

-- A handler that takes a class by value is refused if that cannot be moved.
by_value_refused :
    (movable : ℕ → Bool)
    → movable 2 ≡ false
    → receiver_value movable (
        class_type (
          some (record {
            qualifier = const_qualified;
            is_noexcept = false;
            signature = record { return_type = none; parameters = value float_type ∷ [] };
          })))
      ≡ none
unfolding receiver_value
by_value_refused movable e = rw e refl

-- The same lambda, but `noexcept`.
abbrev noexcept_lambda : CallableType
noexcept_lambda =
    class_type
      (some (record { qualifier = const_qualified; is_noexcept = true; signature = reads_int }))

noexcept_refused :
    (receiver_value all_movable noexcept_lambda ≡ none)
    × (result_type all_movable noexcept_lambda ≡ none)
unfolding receiver_value result_type
noexcept_refused = (refl, refl)

-- The pool's static assertion holds for `rr_scheduler`, and that of `schedule` for what
-- `get_scheduler` returns, which is the adapter and no input scheduler.
schedulers_fit :
    (is_input_scheduler rr_scheduler_members ≡ true)
    × (is_output_scheduler (get_scheduler rr_scheduler_members adapter_members) ≡ true)
    × (is_input_scheduler (get_scheduler rr_scheduler_members adapter_members) ≡ false)
unfolding is_input_scheduler is_output_scheduler get_scheduler
schedulers_fit = (refl, refl, refl)

receivers_fit :
    (b : Bool)
    → (has_future (adapted 3 (value_receiver_members b)) ≡ true)
      × (has_future (adapted 3 (callback_receiver_members b)) ≡ false)
unfolding has_future
receivers_fit b = (
  has_future-adapted 3 (value_receiver_members b) ∙ with_value b,
  has_future-adapted 3 (callback_receiver_members b) ∙ with_callback b,
)
  where
    with_value : (b : Bool) → has_future (value_receiver_members b) ≡ true
    with_value true = refl
    with_value false = refl

    with_callback : (b : Bool) → has_future (callback_receiver_members b) ≡ false
    with_callback true = refl
    with_callback false = refl

-- `std::function<void(void)>` and `std::string`, with the operators that the first has.
abbrev function_type : OperandType
function_type = OperandType.class_type 0

abbrev string_type : OperandType
string_type = OperandType.class_type 1

abbrev operators : List Equality
operators =
    record { left = function_type; right = null_pointer }
    ∷ record { left = null_pointer; right = function_type }
    ∷ record { left = string_type; right = string_type }
    ∷ []

-- What the sockets check against null are pointers and functions; the handle of a socket is an `int`.
checked_types :
    (takes_type operators Check.not_null function_type ≡ true)
    × (takes_type operators Check.not_null string_type ≡ false)
    × (takes_type operators Check.not_equal string_type ≡ true)
    × (has_equal operators arithmetic arithmetic ≡ true)
    × (is_nullable operators (OperandType.pointer 1) ≡ true)
unfolding takes_type
checked_types = (refl, refl, refl, refl, refl)

buffer_checked :
    takes_type operators Check.not_null (OperandType.pointer 1)
    ≡ not (takes_type operators Check.not_zero (OperandType.pointer 1))
buffer_checked = null_or_number operators (OperandType.pointer 1) (refl, (refl, (refl, tt))) refl
