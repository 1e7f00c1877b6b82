-- ===== src/Com/Socket/Performs.antt =====
-- The operations of the sockets make the system calls of Com.Socket.Calls.
use Prim.Native.Nat.{bit_and}
use Prim.Native.String.{String}
use cmake_template.Base.{
  ℕ, zero, suc, min, ◌==◌, ◌≡◌, refl, Bool, true, false, List, [], ◌∷◌, Option, none, some, ℤ, pos,
  negsuc, length, arith,
}
use cmake_template.Core.Contract.{
  Outcome, ok, throws, invalid_argument, throw_if, not_null, not_zero, no_system_error,
  is_system_error, no_system_error_other_than,
}
use cmake_template.System.IpcAddress.{Address, length_of, to_string_view, address_size}
use cmake_template.System.Kernel.{Kernel, sending, receiving, Io, lift, pure, and_then, ◌>>◌}
use cmake_template.System.Posix
use cmake_template.System.Posix.{settle, checked, to_size, to_int, to_bits, new_flags}
use cmake_template.Com.Address
use cmake_template.Com.Enums.{
  SocketFamily, ipc, ipv4, ipv6, mode_to_integral, family_to_integral, type_to_integral,
  protocol_to_integral,
}
use cmake_template.Com.Socket
use cmake_template.Com.Socket.Calls.{
  Operation, SystemCall, Answer, descriptor, flag, count, Reply, plain, plainly, Script, gives,
  only, objections, script, is_null, verdict, give, no_answer, as_bytes, as_datagram, run, judged,
  follow, perform, bind_script,
}

module _ {W : Type 0} (k : Kernel W) (handle : ℤ) where
  settle-valid : (n : ℕ) (w : W) → settle k (negsuc (suc n), w) ≡ (ok (negsuc (suc n)), w)
  unfolding no_system_error is_system_error
  settle-valid n w = ground arith

  -- One system call of the wrappers, and what follows it.
  settle-then :
      {A : Type 0} (g : A → Answer) (m : ℤ → Io W A) (next : ℤ → Script) (p : ℤ × W)
      → ((r : ℤ) (w : W) → give g (m r w) ≡ follow k handle (next r) w)
      → give g (and_then (settle k p) m)
        ≡ and_then (judged k handle [] (plainly k handle p)) (λ _. follow k handle (next p.0))
  unfolding no_system_error is_system_error
  settle-then g m next (pos n, w) h = h (pos n) w
  settle-then g m next (negsuc zero, w) h = refl
  settle-then g m next (negsuc (suc n), w) h = rw (settle-valid n w) (h (negsuc (suc n)) w)

  -- The last system call.
  settle-judged :
      {A : Type 0} (f : ℤ → A) (g : A → Answer) (p : ℤ × W)
      → give g (and_then (settle k p) (λ r. pure (f r)))
        ≡ and_then
            (judged k handle [] (plainly k handle p))
            (λ _. follow k handle (gives (g (f p.0))))
  settle-judged f g p = settle-then g (λ r. pure (f r)) (λ r. gives (g (f r))) p (λ r w. refl)

  settle-answered :
      (p : ℤ × W)
      → give descriptor (settle k p)
        ≡ and_then
            (judged k handle [] (plainly k handle p))
            (λ _. follow k handle (gives (descriptor p.0)))
  unfolding no_system_error is_system_error
  settle-answered (pos n, w) = refl
  settle-answered (negsuc zero, w) = refl
  settle-answered (negsuc (suc n), w) = rw (settle-valid n w) refl

  -- A call that also hands something on.
  answered :
      {A : Type 0} (g : A → Answer) (a : A) (reply : Reply) (w : W)
      → give g (elim (no_system_error (k.errno w) reply.result) as (λ _. Outcome A × W) [
        | ok _ ↦ (ok a, w)
        | throws e ↦ (throws e, w)
      ])
        ≡ and_then (judged k handle [] (reply, w)) (λ _. follow k handle (gives (g a)))
  unfolding no_system_error is_system_error
  answered {A} g a reply w = by_result reply.result
    where
      by_result :
          (r : ℤ)
          → give g (elim (no_system_error (k.errno w) r) as (λ _. Outcome A × W) [
            | ok _ ↦ (ok a, w)
            | throws e ↦ (throws e, w)
          ])
            ≡ and_then (verdict [] (k.errno w) r, w) (λ _. follow k handle (gives (g a)))
      by_result (pos n) = refl
      by_result (negsuc zero) = refl
      by_result (negsuc (suc n)) = ground arith

  ignoring :
      (r : ℤ) (errno enoent : ℕ)
      → no_system_error_other_than errno r (enoent ∷ []) ≡ verdict (enoent ∷ []) errno r
  unfolding no_system_error_other_than
  ignoring (pos n) errno enoent = refl
  ignoring (negsuc zero) errno enoent = ground arith
  ignoring (negsuc (suc n)) errno enoent = ground arith

  -- A check before the rest of an operation.
  objection :
      {A : Type 0} (g : A → Answer) (b : Bool) (message : String) (m : Io W A)
      (rest : List (Bool × String)) (body : Script) (w : W)
      → (b ≡ false → give g (m w) ≡ perform k handle rest body w)
      → give g ((lift (throw_if b (invalid_argument message)) >> m) w)
        ≡ perform k handle ((b, message) ∷ rest) body w
  objection g true message m rest body w h = refl
  objection g false message m rest body w h = h refl

  objection_null :
      {A : Type 0} (g : A → Answer) (buffer : Option (List ℕ)) (message : String) (m : Io W A)
      (rest : List (Bool × String)) (body : Script) (w : W)
      → give g (m w) ≡ perform k handle rest body w
      → give g ((lift (not_null buffer message) >> m) w)
        ≡ perform k handle ((is_null buffer, message) ∷ rest) body w
  unfolding not_null
  objection_null g none message m rest body w h = refl
  objection_null g (some there) message m rest body w h = h

  then_bind :
      (address : Address) (p : Outcome (Unit {0}) × W)
      → give no_answer (and_then p (λ _. Posix.bind k handle address))
        ≡ and_then p (λ _. follow k handle (only (SystemCall.bind address)))
  unfolding Posix.bind Posix.bind_sized checked
  then_bind address (ok _, w) =
      settle-judged (λ _. tt) no_answer (k.bind handle address address_size w)
  then_bind address (throws e, w) = refl

  bind-perform :
      (family : SocketFamily) (address : Address) (w : W)
      → (length_of address == 0) ≡ false
      → give no_answer
          (and_then (Socket.unlink_if_ipc k family address w) (λ _. Posix.bind k handle address))
        ≡ follow k handle (bind_script family address) w
  unfolding Socket.unlink_if_ipc Address.unlink Address.string_view Posix.unlink_path not_zero
      length_of
  bind-perform ipc address w full = rw full (
      let (r, w') = k.unlink (to_string_view address) w in
      rw (ignoring r (k.errno w') k.enoent)
        (then_bind address (verdict (k.enoent ∷ []) (k.errno w') r, w')))
  bind-perform ipv4 address w full = then_bind address (ok tt, w)
  bind-perform ipv6 address w full = then_bind address (ok tt, w)

  set_timeout-perform :
      (us : ℤ) (p : ℤ × W)
      → give no_answer (
          and_then
            (and_then (settle k p) (λ _. pure tt))
            (λ _. Posix.set_timeout k handle receiving us))
        ≡ and_then
            (judged k handle [] (plainly k handle p))
            (λ _. follow k handle (only (SystemCall.set_timeout receiving us)))
  unfolding Posix.set_timeout checked no_system_error is_system_error
  set_timeout-perform us (pos n, w) =
      settle-judged (λ _. tt) no_answer (k.set_timeout handle receiving 0 us w)
  set_timeout-perform us (negsuc zero, w) = refl
  set_timeout-perform us (negsuc (suc n), w) =
      rw (settle-valid n w)
        (settle-judged (λ _. tt) no_answer (k.set_timeout handle receiving 0 us w))

  -- Every operation does what its table says. For every operation of a socket but `accept`, the
  -- construction of sockets included, with any arguments: it throws `std::invalid_argument` with the
  -- message of its first objection, where it has one, and calls nothing; otherwise it makes its system
  -- calls in order up to the first that fails, and throws that call's error, or returns what the table
  -- makes of their results if none fails. A call that returned -1 has failed, but for an `unlink` that
  -- found nothing.
  pub run-perform :
      (operation : Operation) (w : W)
      → run k handle operation w ≡ perform k handle (objections operation) (script k operation) w
  unfolding Socket.shutdown Posix.shutdown Socket.get_send_buffer_size Posix.get_send_buffer_size
      Socket.set_send_timeout Socket.set_receive_timeout Socket.set_timeout Posix.set_timeout
      Socket.receive Posix.receive Socket.receive_from Posix.receive_from Posix.receive_from_sized
      Socket.send Posix.send Socket.send_to Posix.send_to Posix.send_to_sized Socket.connect
      Posix.connect Posix.connect_sized Socket.server_bind Socket.datagram_bind Socket.listen
      Posix.listen Socket.basic_socket Posix.construct Socket.non_blocking Posix.non_blocking
      Socket.is_non_blocking Posix.is_non_blocking Posix.get_descriptor_flags checked not_zero
  run-perform (Operation.create p type) w =
      let number = k.socket (family_to_integral p.family) (type_to_integral type) in
      settle-answered (number (protocol_to_integral p.protocol) w)
  run-perform (Operation.non_blocking mode) w =
      settle-then no_answer _ (λ r. only (SystemCall.set_flags (new_flags k mode (to_bits r))))
        (k.get_flags handle w)
        (λ r w'.
          settle-judged (λ _. tt) no_answer (k.set_flags handle (new_flags k mode (to_bits r)) w'))
  run-perform Operation.is_non_blocking w =
      settle-judged (λ r. bit_and (to_bits r) k.o_nonblock == k.o_nonblock) flag
        (k.get_flags handle w)
  run-perform (Operation.shutdown mode) w =
      settle-judged (λ _. tt) no_answer (k.shutdown handle (mode_to_integral mode) w)
  run-perform Operation.get_send_buffer_size w =
      let (r, size, w') = k.get_send_buffer handle w in
      answered count size (record (plain r) { size = size }) w'
  run-perform (Operation.set_send_timeout us) w =
      settle-judged (λ _. tt) no_answer (k.set_timeout handle sending 0 us w)
  run-perform (Operation.set_receive_timeout us) w =
      settle-judged (λ _. tt) no_answer (k.set_timeout handle receiving 0 us w)
  run-perform (Operation.set_timeout us) w =
      set_timeout-perform us (k.set_timeout handle sending 0 us w)
  run-perform (Operation.receive buffer length) w = objection_null as_bytes buffer _ _ _ _ w (
      objection as_bytes (length == 0) _ _ _ _ w (λ _.
        let (r, written, w') = k.recv handle length 0 w in
        answered as_bytes (to_size r, written) (record (plain r) { written = written }) w'))
  run-perform (Operation.receive_from buffer length) w =
      objection_null as_datagram buffer _ _ _ _ w (
        objection as_datagram (length == 0) _ _ _ _ w (λ _.
          let (r, written, from, w') = k.recvfrom handle length 0 address_size w in
          answered as_datagram (to_size r, written, from)
            (record (plain r) { written = written; address = from }) w'))
  run-perform (Operation.send buffer length) w = objection_null count buffer _ _ _ _ w (
      objection count (length == 0) _ _ _ _ w (λ _.
        settle-judged to_size count
          (k.send handle (Socket.pointee buffer) length k.msg_nosignal w)))
  run-perform (Operation.send_to address buffer length) w =
      objection count (length_of address == 0) _ _ _ _ w (λ _.
        objection_null count buffer _ _ _ _ w (
          objection count (length == 0) _ _ _ _ w (λ _.
            settle-judged to_size count
              (k.sendto handle (Socket.pointee buffer) length 0 address address_size w))))
  run-perform (Operation.connect address) w =
      objection no_answer (length_of address == 0) _ _ _ _ w
        (λ _. settle-judged (λ _. tt) no_answer (k.connect handle address address_size w))
  run-perform (Operation.server_bind family address) w =
      objection no_answer (length_of address == 0) _ _ _ _ w (bind-perform family address w)
  run-perform (Operation.datagram_bind family address) w =
      objection no_answer (length_of address == 0) _ _ _ _ w (bind-perform family address w)
  run-perform (Operation.listen queue_size) w =
      settle-judged (λ _. tt) no_answer (k.listen handle (to_int (min queue_size k.somaxconn)) w)
