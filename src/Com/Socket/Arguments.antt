-- ===== src/Com/Socket/Arguments.antt =====
-- The argument checks of the sockets, and what `bind` does before it binds.
use Prim.Native.String.{String}
use cmake_template.Base.{
  ℕ, zero, suc, ◌==◌, ◌≡◌, refl, ◌≢◌, ◌⊎◌, inl, inr, true, false, not, ◌&&◌, List, [], ◌∷◌, length,
  Option, none, some, Bool-cases, ℤ, eq_int, minus_one, ◌∙◌, pos, negsuc, arith,
}
use cmake_template.Core.Contract.{
  Outcome, throws, invalid_argument, system_error, not_null, not_zero, no_system_error_other_than,
}
use cmake_template.System.IpcAddress.{Address, length_of, to_string_view}
use cmake_template.System.Kernel.{Kernel, and_then}
use cmake_template.System.Posix
use cmake_template.Com.Address
use cmake_template.Com.Enums.{SocketFamily, ipc}
use cmake_template.Com.Socket

is_ignored :
    (r : ℤ) (errno enoent : ℕ)
    → (r ≢ minus_one) ⊎ (errno ≡ enoent)
    → (eq_int r minus_one && (not (errno == enoent) && true)) ≡ false
is_ignored (pos n) errno enoent fine = refl
is_ignored (negsuc (suc n)) errno enoent fine = ground arith
is_ignored (negsuc zero) errno enoent (inl n) = absurd (n refl)
is_ignored (negsuc zero) errno enoent (inr e) = ground arith

-- The call throws `std::invalid_argument` and leaves the system as it was.
unfoldable pub Refused : {W A : Type 0} → Outcome A × W → W → Type 0
Refused r w = (message : String) × (r ≡ (throws (invalid_argument message), w))

-- A null buffer, or a length of zero.
unfoldable pub IsBadBuffer : Option (List ℕ) → ℕ → Type 0
IsBadBuffer buffer length = (buffer ≡ none) ⊎ (length ≡ 0)

module _ {W : Type 0} (k : Kernel W) (handle : ℤ) (w : W) where
  bad_buffer-Refused-send_to :
      (buffer : Option (List ℕ)) (length : ℕ) (address : Address)
      → IsBadBuffer buffer length
      → Refused (Socket.send_to k handle address buffer length w) w
  unfolding Refused IsBadBuffer Socket.send_to not_null not_zero
  bad_buffer-Refused-send_to none length address bad = elim (Bool-cases (length_of address == 0)) [
    | inl e ↦ ("remote_address cannot be empty", rw e refl)
    | inr e ↦ ("buffer cannot be nullptr", rw e refl)
  ]
  bad_buffer-Refused-send_to (some bytes) zero address bad =
      elim (Bool-cases (length_of address == 0)) [
        | inl e ↦ ("remote_address cannot be empty", rw e refl)
        | inr e ↦ ("length cannot be zero", rw e refl)
      ]
  bad_buffer-Refused-send_to (some bytes) (suc n) address bad = ground arith

  bad_buffer-Refused-rest :
      (buffer : Option (List ℕ)) (length : ℕ)
      → IsBadBuffer buffer length
      → Refused (Socket.receive k handle buffer length w) w
        × Refused (Socket.send k handle buffer length w) w
        × Refused (Socket.receive_from k handle buffer length w) w
  unfolding Refused IsBadBuffer Socket.receive Socket.send Socket.receive_from not_null not_zero
  bad_buffer-Refused-rest none length bad = ((_, refl), (_, refl), (_, refl))
  bad_buffer-Refused-rest (some bytes) zero bad = ((_, refl), (_, refl), (_, refl))
  bad_buffer-Refused-rest (some bytes) (suc n) bad = ground arith

  -- A null buffer or a length of zero never reaches the system: whatever the system calls do,
  -- `receive`, `send`, `send_to` and `receive_from` throw `std::invalid_argument` and leave the system
  -- as it was.
  pub bad_buffer-Refused :
      (buffer : Option (List ℕ)) (length : ℕ) (address : Address)
      → IsBadBuffer buffer length
      → Refused (Socket.receive k handle buffer length w) w
        × Refused (Socket.send k handle buffer length w) w
        × Refused (Socket.receive_from k handle buffer length w) w
        × Refused (Socket.send_to k handle address buffer length w) w
  bad_buffer-Refused buffer length address bad =
      let (r, s, f) = bad_buffer-Refused-rest buffer length bad in
      (r, s, f, bad_buffer-Refused-send_to buffer length address bad)

  -- An empty address never reaches the system: whatever the system calls do, `connect`, both `bind`s
  -- and `send_to` throw `std::invalid_argument` and leave the system as it was, so the `bind`s do not
  -- unlink anything either.
  pub no_address-Refused :
      (family : SocketFamily) (buffer : Option (List ℕ)) (length : ℕ) (address : Address)
      → length_of address ≡ 0
      → Refused (Socket.connect k handle address w) w
        × Refused (Socket.server_bind k family handle address w) w
        × Refused (Socket.datagram_bind k family handle address w) w
        × Refused (Socket.send_to k handle address buffer length w) w
  unfolding Refused Socket.connect Socket.server_bind Socket.datagram_bind Socket.send_to not_zero
  no_address-Refused family buffer length address e =
      rw e ((_, refl), (_, refl), (_, refl), (_, refl))

  bind_lem :
      (address : Address) (r : ℤ) (w' : W)
      → length_of address ≢ 0
      → k.unlink (to_string_view address) w ≡ (r, w')
      → (Socket.server_bind k ipc handle address w
          ≡ and_then
              (no_system_error_other_than (k.errno w') r (k.enoent ∷ []), w')
              (λ _. Posix.bind k handle address))
        × (Socket.datagram_bind k ipc handle address w
            ≡ and_then
                (no_system_error_other_than (k.errno w') r (k.enoent ∷ []), w')
                (λ _. Posix.bind k handle address))
  unfolding Socket.server_bind Socket.datagram_bind Socket.unlink_if_ipc Posix.unlink_path not_zero
      length_of Address.unlink Address.string_view
  bind_lem address r w' n u =
      let nz : (length (to_string_view address) == 0) ≡ false = ground arith in
      rw nz (rw u (refl, refl))

  -- On a local socket and an address that is not empty, both `bind`s first unlink the path. When that
  -- fails with an error other than ENOENT, both throw it, and the system's `bind` is not called.
  pub bind-unlink_failed :
      (address : Address) (w' : W)
      → length_of address ≢ 0
      → k.unlink (to_string_view address) w ≡ (minus_one, w')
      → k.errno w' ≢ k.enoent
      → (Socket.server_bind k ipc handle address w ≡ (throws (system_error (k.errno w')), w'))
        × (Socket.datagram_bind k ipc handle address w ≡ (throws (system_error (k.errno w')), w'))
  unfolding no_system_error_other_than
  bind-unlink_failed address w' n u other =
      let d : (k.errno w' == k.enoent) ≡ false = ground arith in
      let (server, datagram) = bind_lem address minus_one w' n u in
      (server ∙ rw d refl, datagram ∙ rw d refl)

  -- On a local socket and an address that is not empty, when the unlinking of the path works or fails
  -- with ENOENT, both `bind`s do what the system's `bind` does after it.
  pub bind-unlinked :
      (address : Address) (r : ℤ) (w' : W)
      → length_of address ≢ 0
      → k.unlink (to_string_view address) w ≡ (r, w')
      → (r ≢ minus_one) ⊎ (k.errno w' ≡ k.enoent)
      → (Socket.server_bind k ipc handle address w ≡ Posix.bind k handle address w')
        × (Socket.datagram_bind k ipc handle address w ≡ Posix.bind k handle address w')
  unfolding no_system_error_other_than
  bind-unlinked address r w' n u fine =
      let d : (eq_int r minus_one && (not (k.errno w' == k.enoent) && true)) ≡ false =
        is_ignored r (k.errno w') k.enoent fine in
      let (server, datagram) = bind_lem address r w' n u in
      (server ∙ rw d refl, datagram ∙ rw d refl)
