-- ===== src/Com/Address.antt =====
-- lib_static/inc/jar/com/basic_address.hpp and lib_static/inc/jar/com/ipc/basic_ipc_address.hpp: an
-- address over the traits that make and read its native form.

use cmake_template.Base.{ℕ, ◌≡◌, refl, ◌≢◌, ◌↔◌, Bool, true, not, List, inl, inr, Bool-cases, arith}
use cmake_template.Core.Contract.{Outcome}
use cmake_template.System.IpcAddress
use cmake_template.System.IpcAddress.{to_string_view}
use cmake_template.System.IpcAddress.View.{equal_iff}
use cmake_template.System.Kernel.{Kernel, Io}
use cmake_template.System.Posix

-- What `basic_address` asks of its parameter `AddressTraits`. Native addresses are destroyed without
-- effect. `empty` is the value-initialised native address.
pub record AddressTraits : Type 1 where
  pub Native : Type 0
  pub Args : Type 0
  pub empty : Native
  pub construct : Args → Outcome Native
  pub to_string_view : Native → List ℕ
  pub length : Native → ℕ
  pub max_length : ℕ
  pub equal : Native → Native → Bool

module _ (t : AddressTraits) where
  open t use {Native, Args}

  unfoldable pub make_empty : Native
  make_empty = t.empty

  unfoldable pub make : Args → Outcome Native
  make args = t.construct args

  -- `operator==` and `operator!=`
  unfoldable pub is_equal : Native → Native → Bool
  is_equal a b = t.equal a b

  unfoldable pub is_not_equal : Native → Native → Bool
  unfolding is_equal
  is_not_equal a b = not (is_equal a b)

  unfoldable pub string_view : Native → List ℕ
  string_view a = t.to_string_view a

  unfoldable pub address_length : Native → ℕ
  address_length a = t.length a

  unfoldable pub address_max_length : ℕ
  address_max_length = t.max_length

-- `posix::ipc_address` as the traits of an address
abbrev pub ipc_traits : AddressTraits
ipc_traits = record {
  Native = IpcAddress.Address;
  Args = List ℕ;
  empty = IpcAddress.zero_address;
  construct = IpcAddress.construct;
  to_string_view = IpcAddress.to_string_view;
  length = IpcAddress.length_of;
  max_length = IpcAddress.max_length;
  equal = IpcAddress.equal;
}

-- `basic_ipc_address::unlink`
unfoldable pub unlink : {W : Type 0} → Kernel W → IpcAddress.Address → Io W (Unit {0})
unfolding string_view
unlink k address = Posix.unlink_path k (string_view ipc_traits address)

-- On all IPC addresses, also on those that no path was given for, `operator==` says whether the string
-- views are the same, and `operator!=` whether they differ.
pub is_equal-string_view :
    (a b : IpcAddress.Address)
    → ((is_equal ipc_traits a b ≡ true) ↔ (string_view ipc_traits a ≡ string_view ipc_traits b))
      × ((is_not_equal ipc_traits a b ≡ true)
          ↔ (string_view ipc_traits a ≢ string_view ipc_traits b))
unfolding is_equal is_not_equal string_view
is_equal-string_view a b =
    let same = equal_iff a b in
    (
      same,
      (
        λ h e. ground (arith, same.1 e),
        λ h. elim (Bool-cases (IpcAddress.equal a b)) [
          | inl e ↦ absurd (h (same.0 e))
          | inr e ↦ rw e refl
        ],
      ),
    )
