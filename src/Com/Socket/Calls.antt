-- ===== src/Com/Socket/Calls.antt =====
-- What each operation of the sockets demands of its arguments, which system calls it makes, and what it
-- returns.
use Prim.Native.Nat.{bit_and}
use Prim.Native.String.{String}
use cmake_template.Base.{
  ℕ, zero, suc, ◌==◌, Bool, true, false, ◌||◌, if◌then◌else◌, List, [], ◌∷◌, Option, none, some,
  min, ℤ, pos, negsuc,
}
use cmake_template.Core.Contract.{Outcome, ok, throws, system_error, invalid_argument}
use cmake_template.System.IpcAddress.{
  Address, length_of, to_string_view, address_size, zero_address,
}
use cmake_template.System.Kernel.{Kernel, Direction, sending, receiving, Io, and_then}
use cmake_template.System.Posix.{to_int, to_size, to_bits, new_flags}
use cmake_template.Com.Enums.{
  SocketFamily, ipc, SocketType, SocketProtocol, ShutdownMode, mode_to_integral, family_to_integral,
  type_to_integral, protocol_to_integral,
}
use cmake_template.Com.Protocol.{Protocol}
use cmake_template.Com.Socket
use cmake_template.Com.Socket.{pointee}

-- The operations of the sockets that run no handler; `create` is what the constructors do.
pub data Operation : Type 0 where
  create : Protocol → SocketType → Operation
  non_blocking : (mode : Bool) → Operation
  is_non_blocking : Operation
  shutdown : ShutdownMode → Operation
  get_send_buffer_size : Operation
  set_send_timeout set_receive_timeout set_timeout : (microseconds : ℤ) → Operation
  receive receive_from send : (buffer : Option (List ℕ)) → (length : ℕ) → Operation
  send_to : Address → (buffer : Option (List ℕ)) → (length : ℕ) → Operation
  connect : Address → Operation
  server_bind datagram_bind : SocketFamily → Address → Operation
  listen : (queue_size : ℕ) → Operation

-- What they return.
pub data Answer : Type 0 where
  nothing : Answer
  descriptor : ℤ → Answer
  flag : Bool → Answer
  count : ℕ → Answer
  read : ℕ → List ℕ → Answer
  datagram : ℕ → List ℕ → Address → Answer

-- The system calls, on the descriptor of the socket.
pub data SystemCall : Type 0 where
  socket : SocketFamily → SocketType → SocketProtocol → SystemCall
  get_flags : SystemCall
  set_flags : ℕ → SystemCall
  shutdown : ShutdownMode → SystemCall
  get_send_buffer : SystemCall
  set_timeout : Direction → (microseconds : ℤ) → SystemCall
  recv recvfrom : (length : ℕ) → SystemCall
  send : List ℕ → (length : ℕ) → SystemCall
  sendto : List ℕ → (length : ℕ) → Address → SystemCall
  connect bind : Address → SystemCall
  listen : (backlog : ℤ) → SystemCall
  unlink : List ℕ → SystemCall

-- The result of a system call, and what it writes through the pointers that it gets.
pub record Reply : Type 0 where
  pub result : ℤ
  pub size : ℕ
  pub written : List ℕ
  pub address : Address

abbrev pub plain : ℤ → Reply
plain r = record { result = r; size = 0; written = []; address = zero_address }

-- System calls in their order, of which a later one may use what an earlier one gave.
pub data Script : Type 0 where
  gives : Answer → Script
  calls : SystemCall → (Reply → Script) → Script

abbrev pub only : SystemCall → Script
only call = calls call (λ _. gives nothing)

abbrev pub is_null : Option (List ℕ) → Bool
is_null none = true
is_null (some bytes) = false

-- What makes an operation refuse its arguments, and what it says then, in the order of the checks.
abbrev pub objections : Operation → List (Bool × String)
objections (receive buffer length) =
    (is_null buffer, "buffer cannot be nullptr") ∷ (length == 0, "length cannot be zero") ∷ []
objections (receive_from buffer length) =
    (is_null buffer, "buffer cannot be nullptr") ∷ (length == 0, "length cannot be zero") ∷ []
objections (send buffer length) =
    (is_null buffer, "buffer cannot be nullptr") ∷ (length == 0, "length cannot be zero") ∷ []
objections (send_to address buffer length) =
    (length_of address == 0, "remote_address cannot be empty")
    ∷ (is_null buffer, "buffer cannot be nullptr")
    ∷ (length == 0, "length cannot be zero")
    ∷ []
objections (connect address) = (length_of address == 0, "remote_address cannot be empty") ∷ []
objections (server_bind family address) = (length_of address == 0, "address cannot be empty") ∷ []
objections (datagram_bind family address) =
    (length_of address == 0, "local_address cannot be empty") ∷ []
objections _ = []

abbrev pub bind_script : SocketFamily → Address → Script
bind_script ipc address = calls (unlink (to_string_view address)) (λ _. only (bind address))
bind_script _ address = only (bind address)

-- The system calls of an operation, with the system's constants, and its answer.
abbrev pub script : {W : Type 0} → Kernel W → Operation → Script
script k (create p type) =
    calls (socket p.family type p.protocol) (λ reply. gives (descriptor reply.result))
script k (non_blocking mode) =
    calls get_flags (λ reply. only (set_flags (new_flags k mode (to_bits reply.result))))
script k is_non_blocking =
    calls get_flags
      (λ reply. gives (flag (bit_and (to_bits reply.result) k.o_nonblock == k.o_nonblock)))
script k (shutdown mode) = only (shutdown mode)
script k get_send_buffer_size = calls get_send_buffer (λ reply. gives (count reply.size))
script k (set_send_timeout us) = only (set_timeout sending us)
script k (set_receive_timeout us) = only (set_timeout receiving us)
script k (set_timeout us) = calls (set_timeout sending us) (λ _. only (set_timeout receiving us))
script k (receive buffer length) =
    calls (recv length) (λ reply. gives (read (to_size reply.result) reply.written))
script k (receive_from buffer length) =
    calls (recvfrom length)
      (λ reply. gives (datagram (to_size reply.result) reply.written reply.address))
script k (send buffer length) =
    calls (send (pointee buffer) length) (λ reply. gives (count (to_size reply.result)))
script k (send_to address buffer length) =
    calls (sendto (pointee buffer) length address) (λ reply. gives (count (to_size reply.result)))
script k (connect address) = only (connect address)
script k (server_bind family address) = bind_script family address
script k (datagram_bind family address) = bind_script family address
script k (listen queue_size) = only (listen (to_int (min queue_size k.somaxconn)))

abbrev pub among : ℕ → List ℕ → Bool
among e [] = false
among e (i ∷ is) = e == i || among e is

-- A call that returned -1 has failed, unless its `errno` is one to ignore.
abbrev pub verdict : (ignored : List ℕ) → (errno : ℕ) → ℤ → Outcome (Unit {0})
verdict ignored errno (pos n) = ok tt
verdict ignored errno (negsuc (suc n)) = ok tt
verdict ignored errno (negsuc zero) =
    if among errno ignored then ok tt else throws (system_error errno)

module _ {W : Type 0} where
  abbrev pub give : {A : Type 0} → (A → Answer) → Outcome A × W → Outcome Answer × W
  give f (ok a, w) = (ok (f a), w)
  give f (throws e, w) = (throws e, w)

abbrev pub no_answer : Unit {0} → Answer
no_answer _ = nothing

abbrev pub as_bytes : ℕ × List ℕ → Answer
as_bytes (n, written) = read n written

abbrev pub as_datagram : ℕ × List ℕ × Address → Answer
as_datagram (n, written, address) = datagram n written address

module _ {W : Type 0} (k : Kernel W) (handle : ℤ) where
  -- The code.
  abbrev pub run : Operation → Io W Answer
  run (create p type) w = give descriptor (Socket.basic_socket k p type w)
  run (non_blocking mode) w = give no_answer (Socket.non_blocking k handle mode w)
  run is_non_blocking w = give flag (Socket.is_non_blocking k handle w)
  run (shutdown mode) w = give no_answer (Socket.shutdown k handle mode w)
  run get_send_buffer_size w = give count (Socket.get_send_buffer_size k handle w)
  run (set_send_timeout us) w = give no_answer (Socket.set_send_timeout k handle us w)
  run (set_receive_timeout us) w = give no_answer (Socket.set_receive_timeout k handle us w)
  run (set_timeout us) w = give no_answer (Socket.set_timeout k handle us w)
  run (receive buffer length) w = give as_bytes (Socket.receive k handle buffer length w)
  run (receive_from buffer length) w =
      give as_datagram (Socket.receive_from k handle buffer length w)
  run (send buffer length) w = give count (Socket.send k handle buffer length w)
  run (send_to address buffer length) w =
      give count (Socket.send_to k handle address buffer length w)
  run (connect address) w = give no_answer (Socket.connect k handle address w)
  run (server_bind family address) w = give no_answer (Socket.server_bind k family handle address w)
  run (datagram_bind family address) w =
      give no_answer (Socket.datagram_bind k family handle address w)
  run (listen queue_size) w = give no_answer (Socket.listen k handle queue_size w)

  abbrev pub plainly : ℤ × W → Reply × W
  plainly (r, w) = (plain r, w)

  -- A system call: what it returns, and the system after it.
  abbrev pub make : SystemCall → W → Reply × W
  make (socket family type protocol) w = plainly (
      k.socket (family_to_integral family) (type_to_integral type) (protocol_to_integral protocol)
        w)
  make get_flags w = plainly (k.get_flags handle w)
  make (set_flags flags) w = plainly (k.set_flags handle flags w)
  make (shutdown mode) w = plainly (k.shutdown handle (mode_to_integral mode) w)
  make get_send_buffer w =
      let (r, size, w') = k.get_send_buffer handle w in (record (plain r) { size = size }, w')
  make (set_timeout direction us) w = plainly (k.set_timeout handle direction 0 us w)
  make (recv length) w =
      let (r, bytes, w') = k.recv handle length 0 w in (record (plain r) { written = bytes }, w')
  make (recvfrom length) w =
      let (r, bytes, address, w') = k.recvfrom handle length 0 address_size w in
      (record (plain r) { written = bytes; address = address }, w')
  make (send bytes length) w = plainly (k.send handle bytes length k.msg_nosignal w)
  make (sendto bytes length address) w =
      plainly (k.sendto handle bytes length 0 address address_size w)
  make (connect address) w = plainly (k.connect handle address address_size w)
  make (bind address) w = plainly (k.bind handle address address_size w)
  make (listen backlog) w = plainly (k.listen handle backlog w)
  make (unlink path) w = plainly (k.unlink path w)

  abbrev pub ignored : SystemCall → List ℕ
  ignored (unlink path) = k.enoent ∷ []
  ignored _ = []

  abbrev pub judged : List ℕ → Reply × W → Outcome (Unit {0}) × W
  judged codes (reply, w) = (verdict codes (k.errno w) reply.result, w)

  -- The calls one after the other, up to the first that fails.
  abbrev pub follow : Script → Io W Answer
  follow (gives answer) w = (ok answer, w)
  follow (calls call next) w =
      let made = make call w in and_then (judged (ignored call) made) (λ _. follow (next made.0))

  abbrev pub perform : List (Bool × String) → Script → Io W Answer
  perform [] body w = follow body w
  perform ((true, message) ∷ rest) body w = (throws (invalid_argument message), w)
  perform ((false, message) ∷ rest) body w = perform rest body w
