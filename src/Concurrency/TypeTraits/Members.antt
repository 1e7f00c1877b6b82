-- ===== src/Concurrency/TypeTraits/Members.antt =====
-- type_traits.hpp: the traits that ask whether a class has a member function that can be called so,
-- and the classes of the library that are asked. A class is the list of its public member functions;
-- conversions between class types are left out.
use cmake_template.Base.{
  ℕ, zero, suc, ◌==◌, ◌≡◌, refl, ◌∙◌, Bool, true, false, ◌&&◌, ◌||◌, not, ltb, List, [], ◌∷◌, ◌++◌,
  length, if◌then◌else◌,
}
use cmake_template.Concurrency.TypeTraits.{
  ObjectType, named, pointer, ReferredType, object, array, function, ParameterType, value,
  rvalue_ref, decay, takes_rvalue,
}

pub data MemberName : Type 0 where
  schedule scheduled clear get_adapter get_future complete fail cancel is_canceled : MemberName

-- `forwarded n` is a template that takes `n` arguments of any types, and `at_least n` one that takes a
-- pack of them behind `n`.
pub data Parameters : Type 0 where
  exactly : List ParameterType → Parameters
  forwarded : ℕ → Parameters
  at_least : ℕ → Parameters

pub record MemberFunction : Type 0 where
  pub name : MemberName
  pub parameters : Parameters

abbrev pub ClassType : Type 0
ClassType = List MemberFunction

abbrev same_bool : Bool → Bool → Bool
same_bool true b = b
same_bool false true = false
same_bool false false = true

abbrev mutual
  pub same_object : ObjectType → ObjectType → Bool
  same_object (named a) (named b) = a == b
  same_object (pointer r) (pointer s) = same_referred r s
  same_object (named a) (pointer s) = false
  same_object (pointer r) (named b) = false

  pub same_referred : ReferredType → ReferredType → Bool
  same_referred (object c t) (object d u) = same_bool c d && same_object t u
  same_referred (array c t n) (array d u m) = same_bool c d && same_object t u && n == m
  same_referred (function f) (function g) = f == g
  same_referred _ _ = false

abbrev number : MemberName → ℕ
number schedule = 0
number scheduled = 1
number clear = 2
number get_adapter = 3
number get_future = 4
number complete = 5
number fail = 6
number cancel = 7
number is_canceled = 8

-- Whether arguments that are rvalues of these types fit; the classes that are asked about can be moved.
abbrev fit : List ParameterType → List ObjectType → Bool
fit [] [] = true
fit (p ∷ ps) (v ∷ vs) = takes_rvalue (λ n. true) p && same_object v (decay p) && fit ps vs
fit [] (v ∷ vs) = false
fit (p ∷ ps) [] = false

abbrev accept : Parameters → List ObjectType → Bool
accept (exactly ps) vs = fit ps vs
accept (forwarded n) vs = length vs == n
accept (at_least n) vs = not (ltb (length vs) n)

-- `decltype(std::declval<C>().name(std::declval<Args>()...))`
abbrev can_call : MemberName → List ObjectType → ClassType → Bool
can_call name vs [] = false
can_call name vs (f ∷ fs) =
    (number f.name == number name && accept f.parameters vs) || can_call name vs fs

-- `std::function<void(void)>` and `std::exception_ptr`
abbrev pub task_type : ObjectType
task_type = named 0

abbrev exception_ptr : ObjectType
exception_ptr = named 1

unfoldable pub is_output_scheduler : ClassType → Bool
is_output_scheduler c = can_call schedule (task_type ∷ []) c

unfoldable pub is_input_scheduler : ClassType → Bool
is_input_scheduler c = can_call scheduled [] c

unfoldable pub has_scheduler_adapter : ClassType → Bool
has_scheduler_adapter c = can_call get_adapter [] c

unfoldable pub has_future : ClassType → Bool
has_future c = can_call get_future [] c

abbrev member : MemberName → List ParameterType → MemberFunction
member name ps = record { name = name; parameters = exactly ps }

-- The public members of `rr_scheduler`, and of its `adapter`.
abbrev pub rr_scheduler_members : ClassType
rr_scheduler_members =
    member scheduled []
    ∷ member schedule (rvalue_ref (object false task_type) ∷ [])
    ∷ member clear []
    ∷ member get_adapter []
    ∷ []

abbrev pub adapter_members : ClassType
adapter_members = record { name = schedule; parameters = at_least 1 } ∷ []

-- The members that every receiver has; the value type may be `void`.
abbrev receiver_members : Parameters → ClassType
receiver_members completion =
    record { name = complete; parameters = completion }
    ∷ member fail (value exception_ptr ∷ [])
    ∷ member cancel []
    ∷ member is_canceled []
    ∷ []

abbrev completion_with : (is_void : Bool) → Parameters
completion_with true = exactly []
completion_with false = forwarded 1

abbrev pub value_receiver_members : (is_void : Bool) → ClassType
value_receiver_members is_void =
    receiver_members (completion_with is_void) ++ (member get_future [] ∷ [])

abbrev pub callback_receiver_members : (is_void : Bool) → ClassType
callback_receiver_members is_void = receiver_members (completion_with is_void)

-- `receiver_adapter` has `get_future` if its receiver has.
unfoldable pub receiver_adapter_members : (receiver : ClassType) → ClassType
unfolding has_future
receiver_adapter_members c =
    receiver_members (at_least 0) ++ (if has_future c then member get_future [] ∷ [] else [])

-- `thread_pool::get_scheduler`, by the class of what it returns.
unfoldable pub get_scheduler : (scheduler adapter : ClassType) → ClassType
unfolding has_scheduler_adapter
get_scheduler c adapter = if has_scheduler_adapter c then adapter else c

-- The receiver behind `n` calls of `then`.
unfoldable pub adapted : ℕ → ClassType → ClassType
adapted zero c = c
adapted (suc n) c = receiver_adapter_members (adapted n c)

-- However many calls of `then` there are, the receiver they make has a future exactly if the one
-- behind them has.
pub has_future-adapted : (n : ℕ) (c : ClassType) → has_future (adapted n c) ≡ has_future c
unfolding adapted receiver_adapter_members has_future
has_future-adapted zero c = refl
has_future-adapted (suc n) c = once (can_call get_future [] (adapted n c)) ∙ has_future-adapted n c
  where
    once :
        (b : Bool)
        → can_call get_future []
            (receiver_members (at_least 0) ++ (if b then member get_future [] ∷ [] else []))
          ≡ b
    once true = refl
    once false = refl
