-- ===== src/System/Handle.antt =====
-- lib_header/inc/jar/system/basic_handle.hpp: handles that own a system resource.
-- The move assignment is left out: it does not compile where it is used.
pub mod Ownership
use cmake_template.Base.{ℕ, ◌≡◌, ◌↔◌, Bool, true, not, List, [], ◌∷◌, if◌then◌else◌}

-- What `basic_handle` asks of its parameter `Resource`, as far as handles compute with it.
pub record Resource : Type 1 where
  pub Native : Type 0
  pub invalid_value : Native
  pub same : Native → Native → Bool
  pub same_iff : (a b : Native) → (same a b ≡ true) ↔ (a ≡ b)

module _ (r : Resource) where
  open r use {Native, invalid_value, same}

  unfoldable pub is_valid : Native → Bool
  is_valid v = not (same invalid_value v)

  -- `operator==` and `operator!=`
  unfoldable pub equal : Native → Native → Bool
  equal a b = same a b

  unfoldable pub not_equal : Native → Native → Bool
  not_equal a b = not (same a b)

  -- The move constructor: the value of the new handle, and of the one moved from.
  unfoldable pub move_construct : (other : Native) → Native × Native
  move_construct other = (other, invalid_value)

  -- The destructor: what it gives to `Resource::destroy`.
  unfoldable pub destruct : Native → List Native
  unfolding is_valid
  destruct v = if is_valid v then v ∷ [] else []
