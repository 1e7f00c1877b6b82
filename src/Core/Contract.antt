-- ===== src/Core/Contract.antt =====
-- lib_header/inc/jar/core/contract.hpp: the checks that turn a bad argument or a failed system call
-- into an exception. `errno` is an argument.
use Prim.Native.String.{String}
use cmake_template.Base.{
  ℕ, ℤ, minus_one, eq_int, Bool, true, false, not, ◌&&◌, ltb, ◌==◌, List, [], ◌∷◌, Option, none,
  some,
}

-- The exceptions that the libraries throw, and those of the functions they are given.
pub data Exception : Type 0 where
  system_error : (errno : ℕ) → Exception
  invalid_argument domain_error runtime_error : String → Exception
  bad_variant_access bad_optional_access : Exception

pub data Outcome {ℓ} (A : Type ℓ) : Type ℓ where
  ok : A → Outcome A
  throws : Exception → Outcome A

infixl 5 ◌>>=◌ ◌>>◌
abbrev pub ◌>>=◌ {ℓ κ} : {A : Type ℓ} {B : Type κ} → Outcome A → (A → Outcome B) → Outcome B
ok a >>= f = f a
throws e >>= f = throws e

abbrev pub ◌>>◌ {ℓ} : {B : Type ℓ} → Outcome (Unit {0}) → Outcome B → Outcome B
m >> k = m >>= λ _. k

abbrev pub throw_if : Bool → Exception → Outcome (Unit {0})
throw_if true e = throws e
throw_if false e = ok tt

unfoldable pub is_system_error : ℤ → Bool
is_system_error r = eq_int r minus_one

unfoldable pub no_system_error : (errno : ℕ) → ℤ → Outcome (Unit {0})
unfolding is_system_error
no_system_error errno r = throw_if (is_system_error r) (system_error errno)

-- The fold `((errno != ignored) && ...)`.
abbrev pub is_not_any_of : ℕ → List ℕ → Bool
is_not_any_of errno [] = true
is_not_any_of errno (i ∷ is) = not (errno == i) && is_not_any_of errno is

unfoldable pub no_system_error_other_than : (errno : ℕ) → ℤ → List ℕ → Outcome (Unit {0})
no_system_error_other_than errno r ignored =
    throw_if (eq_int r minus_one && is_not_any_of errno ignored) (system_error errno)

-- A null pointer, or an empty `std::function`, is `none`.
unfoldable pub not_null {ℓ} : {A : Type ℓ} → Option A → String → Outcome (Unit {0})
not_null none message = throws (invalid_argument message)
not_null (some a) message = ok tt

-- The arithmetic type is `std::size_t` or `unsigned` wherever the libraries call these.
unfoldable pub not_zero : ℕ → String → Outcome (Unit {0})
not_zero value message = throw_if (value == 0) (invalid_argument message)

unfoldable pub not_greater : ℕ → ℕ → String → Outcome (Unit {0})
not_greater value max message = throw_if (ltb max value) (invalid_argument message)

unfoldable pub not_less : ℕ → ℕ → String → Outcome (Unit {0})
not_less value min message = throw_if (ltb value min) (invalid_argument message)

unfoldable pub not_equal : ℕ → ℕ → String → Outcome (Unit {0})
not_equal actual unexpected message = throw_if (actual == unexpected) (domain_error message)
