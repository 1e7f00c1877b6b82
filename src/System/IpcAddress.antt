-- ===== src/System/IpcAddress.antt =====
-- lib_static/inc/jar/system/posix/ipc_address.hpp: addresses of local sockets, over bytes.
pub mod View
use Prim.Native.String.{String}
use cmake_template.Base.{
  ℕ, zero, suc, ◌+◌, ◌-◌, ◌≤◌, ◌<◌, ◌≡◌, refl, ap, ap₂, sym, ◌∙◌, ◌≢◌, ◌↔◌, ◌⊎◌, inl, inr, Bool,
  true, false, List, [], ◌∷◌, ◌++◌, All, length, replicate, set, ◌==◌, ==_iff, if◌then◌else◌, ltb,
  Bool-cases, arith,
}
use cmake_template.Core.Contract.{
  Exception, invalid_argument, Outcome, ok, throws, ◌>>=◌, ◌>>◌, not_greater,
}

-- `::sockaddr_un`
pub record Address : Type 0 where
  pub sun_family : ℕ
  pub sun_path : List ℕ

-- `sizeof(::sockaddr_un::sun_path)` on Linux
abbrev pub path_size : ℕ
path_size = 108

-- `sizeof(::sockaddr_un)`: the family takes two bytes.
abbrev pub address_size : ℕ
address_size = 2 + path_size

abbrev pub af_local : ℕ
af_local = 1

abbrev pub max_length : ℕ
max_length = path_size - 1

-- `::sockaddr_un ipc_address{}`, and the empty address of `basic_address()`
unfoldable pub zero_address : Address
zero_address = record { sun_family = 0; sun_path = replicate path_size 0 }

-- The loop from index `i` on, over what is left of the path.
copy_path : ℕ → List ℕ → List ℕ → List ℕ
copy_path i [] bytes = bytes
copy_path i (c ∷ cs) bytes = copy_path (i + 1) cs (set bytes i c)

unfoldable pub construct : List ℕ → Outcome Address
unfolding copy_path zero_address
construct path = do
  not_greater (length path) max_length "socket path is too long"
  ok (record { sun_family = af_local; sun_path = copy_path 0 path zero_address.sun_path })

-- What a null-terminated view of the bytes shows. Bytes without a zero, behind which the source would
-- read on, show whole.
unfoldable pub before_nul : List ℕ → List ℕ
before_nul [] = []
before_nul (c ∷ cs) = let rest = before_nul cs in if c == 0 then [] else c ∷ rest

unfoldable pub to_string_view : Address → List ℕ
unfolding before_nul
to_string_view a = before_nul a.sun_path

unfoldable pub length_of : Address → ℕ
unfolding to_string_view
length_of a = length (to_string_view a)

abbrev pub eq_bytes : List ℕ → List ℕ → Bool
eq_bytes [] [] = true
eq_bytes (x ∷ xs) (y ∷ ys) = if x == y then eq_bytes xs ys else false
eq_bytes _ _ = false

unfoldable pub equal : Address → Address → Bool
unfolding before_nul
equal a b = eq_bytes (before_nul a.sun_path) (before_nul b.sun_path)
