-- ===== src/System/Posix.antt =====
-- lib_static/inc/jar/system/posix/socket.hpp and lib_static/src/jar/system/posix/socket.cpp: the
-- wrappers of the system calls. A file descriptor is an integer; buffers hold bytes.
pub mod Flags
use Prim.Native.Nat.{bit_and, bit_or}
use cmake_template.Base.{
  ℕ, suc, [], ◌∷◌, length, ℤ, pos, negsuc, minus_one, ◌-◌, ◌==◌, Bool, List, Option, none, some,
  size_mod, uint_mod, ltb, ◌^◌, ◌%◌, if◌then◌else◌,
}
use cmake_template.Core.Contract.{
  Outcome, ok, throws, no_system_error, is_system_error, not_zero, no_system_error_other_than,
}
use cmake_template.System.IpcAddress.{Address, address_size}
use cmake_template.System.Kernel.{Kernel, Direction, Io, lift, pure, ◌>>=◌, ◌>>◌}
use cmake_template.Com.Enums.{
  SocketFamily, SocketType, SocketProtocol, ShutdownMode, family_to_integral, type_to_integral,
  protocol_to_integral, mode_to_integral,
}

abbrev pub invalid_value : ℤ
invalid_value = minus_one

-- `static_cast<std::size_t>` of a signed result
abbrev pub to_size : ℤ → ℕ
to_size (pos n) = n
to_size (negsuc n) = size_mod - suc n

-- `static_cast<int>` of an unsigned number
abbrev pub to_int : ℕ → ℤ
to_int n =
    let low = n % uint_mod in if ltb low (2 ^ 31) then pos low else negsuc (uint_mod - 1 - low)

-- `static_cast<::socklen_t>`
abbrev pub to_socklen : ℕ → ℕ
to_socklen n = n % uint_mod

-- The bits of a non-negative `int`.
abbrev pub to_bits : ℤ → ℕ
to_bits (pos n) = n
to_bits (negsuc n) = 0

module _ {W : Type 0} (k : Kernel W) where
  open k use {errno}

  -- `contract::no_system_error` of what a system call returned
  abbrev pub settle : ℤ × W → Outcome ℤ × W
  settle (r, w) = elim (no_system_error (errno w) r) [ ok _ ↦ (ok r, w) | throws e ↦ (throws e, w) ]

  -- A system call and the `contract::no_system_error` behind it.
  unfoldable pub checked : (W → ℤ × W) → Io W ℤ
  checked call w = settle (call w)

  abbrev pub max_listen_que : ℕ
  max_listen_que = k.somaxconn

  unfoldable pub construct : SocketFamily → SocketType → SocketProtocol → Io W ℤ
  unfolding checked family_to_integral type_to_integral protocol_to_integral
  construct family type protocol =
      checked (
        k.socket (family_to_integral family) (type_to_integral type)
          (protocol_to_integral protocol))

  -- `none` is `std::terminate`.
  unfoldable pub destroy : ℤ → W → Option W
  unfolding is_system_error
  destroy handle w = let (r, w') = k.close handle w in if is_system_error r then none else some w'

  unfoldable pub get_descriptor_flags : ℤ → Io W ℤ
  unfolding checked
  get_descriptor_flags handle = checked (k.get_flags handle)

  unfoldable pub is_non_blocking : ℤ → Io W Bool
  unfolding get_descriptor_flags
  is_non_blocking handle = do
    flags ← get_descriptor_flags handle
    pure (bit_and (to_bits flags) k.o_nonblock == k.o_nonblock)

  -- `flags & ~o` clears in `flags` the bits that it shares with `o`.
  abbrev pub without : ℕ → ℕ → ℕ
  without flags o = flags - bit_and flags o

  abbrev pub new_flags : Bool → ℕ → ℕ
  new_flags mode flags = if mode then bit_or flags k.o_nonblock else without flags k.o_nonblock

  unfoldable pub non_blocking : ℤ → Bool → Io W (Unit {0})
  unfolding get_descriptor_flags checked
  non_blocking handle mode = do
    flags ← get_descriptor_flags handle
    _ ← checked (k.set_flags handle (new_flags mode (to_bits flags)))
    pure tt

  unfoldable pub shutdown : ℤ → ShutdownMode → Io W (Unit {0})
  unfolding checked mode_to_integral
  shutdown handle mode = do _ ← checked (k.shutdown handle (mode_to_integral mode)); pure tt

  unfoldable pub get_send_buffer_size : ℤ → Io W ℕ
  unfolding no_system_error
  get_send_buffer_size handle w =
      let (r, size, w') = k.get_send_buffer handle w in
      elim (no_system_error (errno w') r) [ ok _ ↦ (ok size, w') | throws e ↦ (throws e, w') ]

  unfoldable pub listen : ℤ → ℕ → Io W (Unit {0})
  unfolding checked
  listen handle queue_size = do _ ← checked (k.listen handle (to_int queue_size)); pure tt

  unfoldable pub accept : ℤ → Io W ℤ
  unfolding checked
  accept handle = checked (k.accept handle)

  -- `bind` of an address and its size; the templates below give the size of `::sockaddr_un`.
  unfoldable pub bind_sized : ℤ → Address → (size : ℕ) → Io W (Unit {0})
  unfolding checked
  bind_sized handle local_address size = do
    _ ← checked (k.bind handle local_address (to_socklen size))
    pure tt

  unfoldable pub bind : ℤ → Address → Io W (Unit {0})
  unfolding bind_sized
  bind handle local_address = bind_sized handle local_address address_size

  unfoldable pub connect_sized : ℤ → Address → (size : ℕ) → Io W (Unit {0})
  unfolding checked
  connect_sized handle remote_address size = do
    _ ← checked (k.connect handle remote_address (to_socklen size))
    pure tt

  unfoldable pub connect : ℤ → Address → Io W (Unit {0})
  unfolding connect_sized
  connect handle remote_address = connect_sized handle remote_address address_size

  abbrev pub received : ℤ × List ℕ × W → Outcome (ℕ × List ℕ) × W
  received (r, bytes, w) = elim (no_system_error (errno w) r) [
    | ok _ ↦ (ok (to_size r, bytes), w)
    | throws e ↦ (throws e, w)
  ]

  -- The number of bytes, and the bytes that the call wrote.
  unfoldable pub receive : ℤ → (length : ℕ) → Io W (ℕ × List ℕ)
  receive handle length w = received (k.recv handle length 0 w)

  unfoldable pub send : ℤ → List ℕ → (length : ℕ) → Io W ℕ
  unfolding checked
  send handle bytes length = do
    r ← checked (k.send handle bytes length k.msg_nosignal)
    pure (to_size r)

  unfoldable pub send_to_sized : ℤ → List ℕ → (length : ℕ) → Address → (size : ℕ) → Io W ℕ
  unfolding checked
  send_to_sized handle bytes length remote_address size = do
    r ← checked (k.sendto handle bytes length 0 remote_address (to_socklen size))
    pure (to_size r)

  unfoldable pub send_to : ℤ → Address → List ℕ → (length : ℕ) → Io W ℕ
  unfolding send_to_sized
  send_to handle remote_address bytes length =
      send_to_sized handle bytes length remote_address address_size

  unfoldable pub receive_from_sized : ℤ → (length size : ℕ) → Io W (ℕ × List ℕ × Address)
  unfolding no_system_error
  receive_from_sized handle length size w =
      let (r, bytes, remote_address, w') = k.recvfrom handle length 0 (to_socklen size) w in
      elim (no_system_error (errno w') r) [
        | ok _ ↦ (ok (to_size r, bytes, remote_address), w')
        | throws e ↦ (throws e, w')
      ]

  unfoldable pub receive_from : ℤ → (length : ℕ) → Io W (ℕ × List ℕ × Address)
  unfolding receive_from_sized
  receive_from handle length = receive_from_sized handle length address_size

  -- `set_send_timeout` and `set_receive_timeout`: all the microseconds go to `tv_usec`.
  unfoldable pub set_timeout : ℤ → Direction → (microseconds : ℤ) → Io W (Unit {0})
  unfolding checked
  set_timeout handle direction microseconds = do
    _ ← checked (k.set_timeout handle direction 0 microseconds)
    pure tt

  -- `ipc_address::unlink`
  unfoldable pub unlink_path : List ℕ → Io W (Unit {0})
  unfolding not_zero no_system_error_other_than
  unlink_path path = do
    lift (not_zero (length path) "address cannot be empty")
    λ w.
        let (r, w') = k.unlink path w in
        (no_system_error_other_than (errno w') r (k.enoent ∷ []), w')
