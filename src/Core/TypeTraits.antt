-- ===== src/Core/TypeTraits.antt =====
-- lib_header/inc/jar/core/type_traits.hpp, and what the templates of contract.hpp ask of the types of
-- their arguments. An operand of `==` has one of the types below, without `const` and references.
-- Left out: conversions of class types, pointers to functions and to members, pointers to bases.
use cmake_template.Base.{
  ℕ, ◌==◌, ◌≡◌, refl, Bool, true, false, not, ◌&&◌, ◌||◌, List, [], ◌∷◌, All, arith,
}

-- `null_pointer` is `std::nullptr_t`; `pointer 0` is `void*`, any other number another object type's.
pub data OperandType : Type 0 where
  arithmetic null_pointer : OperandType
  pointer class_type : ℕ → OperandType

-- An `operator==` that a program declares, by the types of its operands.
pub record Equality : Type 0 where
  pub left : OperandType
  pub right : OperandType

-- The built-in `==`.
abbrev pub builtin_equal : OperandType → OperandType → Bool
builtin_equal arithmetic arithmetic = true
builtin_equal null_pointer null_pointer = true
builtin_equal null_pointer (pointer a) = true
builtin_equal (pointer a) null_pointer = true
builtin_equal (pointer a) (pointer b) = a == b || a == 0 || b == 0
builtin_equal _ _ = false

-- Whether an argument of the first type fits a parameter of the second.
abbrev fits : OperandType → OperandType → Bool
fits arithmetic arithmetic = true
fits null_pointer null_pointer = true
fits null_pointer (pointer a) = true
fits (pointer a) (pointer b) = a == b || b == 0
fits (class_type a) (class_type b) = a == b
fits _ _ = false

abbrev pub declared_equal : List Equality → OperandType → OperandType → Bool
declared_equal [] l r = false
declared_equal (e ∷ es) l r = (fits l e.left && fits r e.right) || declared_equal es l r

-- `has_equal_v<L, R>`, where the given operators are declared.
unfoldable pub has_equal : List Equality → OperandType → OperandType → Bool
has_equal es l r = builtin_equal l r || declared_equal es l r

-- `is_nullable_v<T>`
unfoldable pub is_nullable : List Equality → OperandType → Bool
unfolding has_equal
is_nullable es t = has_equal es t null_pointer

abbrev pub is_arithmetic : OperandType → Bool
is_arithmetic arithmetic = true
is_arithmetic _ = false

pub data Check : Type 0 where
  not_null not_zero not_greater not_less not_equal : Check

-- Whether a check of contract.hpp compiles for values of a type.
unfoldable pub takes_type : List Equality → Check → OperandType → Bool
unfolding is_nullable has_equal
takes_type es Check.not_null t = is_nullable es t
takes_type es Check.not_zero t = is_arithmetic t
takes_type es Check.not_greater t = is_arithmetic t
takes_type es Check.not_less t = is_arithmetic t
takes_type es Check.not_equal t = has_equal es t t

abbrev pub is_class : OperandType → Bool
is_class (class_type a) = true
is_class _ = false

-- An operator that the language lets a program declare.
abbrev pub IsDeclarable : Equality → Type 0
IsDeclarable e = (is_class e.left || is_class e.right) ≡ true

fits-class : (t p : OperandType) → is_class t ≡ false → is_class p ≡ true → fits t p ≡ false
fits-class arithmetic (class_type b) d c = refl
fits-class null_pointer (class_type b) d c = refl
fits-class (pointer a) (class_type b) d c = refl
fits-class (class_type a) p d c = cc
fits-class arithmetic arithmetic d c = cc
fits-class arithmetic null_pointer d c = cc
fits-class arithmetic (pointer b) d c = cc
fits-class null_pointer arithmetic d c = cc
fits-class null_pointer null_pointer d c = cc
fits-class null_pointer (pointer b) d c = cc
fits-class (pointer a) arithmetic d c = cc
fits-class (pointer a) null_pointer d c = cc
fits-class (pointer a) (pointer b) d c = cc

unfit :
    (e : Equality) (l r : OperandType)
    → IsDeclarable e
    → is_class l ≡ false
    → is_class r ≡ false
    → (fits l e.left && fits r e.right) ≡ false
unfit e l r d p q = ground (arith, fits-class l e.left p, fits-class r e.right q)

-- No declared operator compares operands that are no classes.
declared_equal-false :
    (es : List Equality) (l r : OperandType)
    → All IsDeclarable es
    → is_class l ≡ false
    → is_class r ≡ false
    → declared_equal es l r ≡ false
declared_equal-false [] l r d p q = refl
declared_equal-false (e ∷ es) l r (d, ds) p q =
    rw (unfit e l r d p q) (declared_equal-false es l r ds p q)

-- Whatever operators a program declares: of a type that is no class, either `not_null` takes the
-- values, or else the checks on numbers do.
pub null_or_number :
    (es : List Equality) (t : OperandType)
    → All IsDeclarable es
    → is_class t ≡ false
    → takes_type es Check.not_null t ≡ not (takes_type es Check.not_zero t)
unfolding takes_type
null_or_number es arithmetic d c =
    rw (declared_equal-false es arithmetic null_pointer d refl refl) refl
null_or_number es null_pointer d c = refl
null_or_number es (pointer a) d c = refl
null_or_number es (class_type a) d c = cc
