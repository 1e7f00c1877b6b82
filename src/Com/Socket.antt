-- ===== src/Com/Socket.antt =====
-- lib_static/inc/jar/com/{basic,basic_stream,stream,stream_server,datagram}_socket.hpp: the sockets, at
-- the wrappers of System.Posix. A socket is the native handle that its `basic_handle` keeps; a null
-- pointer and an empty `std::function` are `none`.
pub mod Arguments
pub mod Limits
pub mod Calls
pub mod Performs
pub mod Descriptors
use cmake_template.Base.{
  Bool, ℕ, [], ◌∷◌, ℤ, pos, negsuc, minus_one, eq_int, ◌==◌, ==_iff, ap, ◌≡◌, ◌↔◌, min, Bool, true,
  List, Option, none, some, arith,
}
use cmake_template.Core.Contract.{Outcome, ok, throws, not_zero, not_null}
use cmake_template.System.Handle.{Resource, destruct}
use cmake_template.System.IpcAddress.{Address, to_string_view, length_of}
use cmake_template.System.Kernel.{
  Kernel, Direction, sending, receiving, Io, lift, pure, ◌>>=◌, ◌>>◌,
}
use cmake_template.System.Posix
use cmake_template.Com.Address
use cmake_template.Com.Protocol.{Protocol}
use cmake_template.Com.Enums.{
  SocketFamily, ipc, ipv4, ipv6, SocketType, stream, datagram, SocketProtocol, ShutdownMode,
}

pub eq_int_iff : (a b : ℤ) → (eq_int a b ≡ true) ↔ (a ≡ b)
eq_int_iff a b = ground arith

-- `posix::socket` as the resource of a `basic_handle`
abbrev pub socket_resource : Resource
socket_resource = record {
  Native = ℤ;
  invalid_value = Posix.invalid_value;
  same = eq_int;
  same_iff = eq_int_iff;
}

-- The bytes behind a pointer that is not null.
abbrev pub pointee : Option (List ℕ) → List ℕ
pointee none = []
pointee (some bytes) = bytes

-- What the handler gave, unless closing the socket terminated the program.
abbrev pub closed : {W : Type 0} → Outcome (Unit {0}) → Option W → Option (Outcome (Unit {0}) × W)
closed result none = none
closed result (some w) = some (result, w)

module _ {W : Type 0} (k : Kernel W) where
  -- `basic_socket(socket_type)`
  unfoldable pub basic_socket : Protocol → SocketType → Io W ℤ
  basic_socket p type = Posix.construct k p.family type p.protocol

  unfoldable pub basic_stream_socket : Protocol → Io W ℤ
  unfolding basic_socket
  basic_stream_socket p = basic_socket p stream

  unfoldable pub stream_socket : Protocol → Io W ℤ
  unfolding basic_stream_socket
  stream_socket p = basic_stream_socket p

  unfoldable pub stream_server_socket : Protocol → Io W ℤ
  unfolding basic_stream_socket
  stream_server_socket p = basic_stream_socket p

  unfoldable pub datagram_socket : Protocol → Io W ℤ
  unfolding basic_socket
  datagram_socket p = basic_socket p datagram

  -- `basic_socket::non_blocking`, `is_non_blocking`, `shutdown` and `get_send_buffer_size`
  unfoldable pub non_blocking : ℤ → (mode : Bool) → Io W (Unit {0})
  non_blocking handle mode = Posix.non_blocking k handle mode

  unfoldable pub is_non_blocking : ℤ → Io W Bool
  is_non_blocking handle = Posix.is_non_blocking k handle

  unfoldable pub shutdown : ℤ → ShutdownMode → Io W (Unit {0})
  shutdown handle mode = Posix.shutdown k handle mode

  unfoldable pub get_send_buffer_size : ℤ → Io W ℕ
  get_send_buffer_size handle = Posix.get_send_buffer_size k handle

  -- `basic_socket::set_send_timeout`
  unfoldable pub set_send_timeout : ℤ → (microseconds : ℤ) → Io W (Unit {0})
  set_send_timeout handle microseconds = Posix.set_timeout k handle sending microseconds

  -- `basic_socket::set_receive_timeout`
  unfoldable pub set_receive_timeout : ℤ → (microseconds : ℤ) → Io W (Unit {0})
  set_receive_timeout handle microseconds = Posix.set_timeout k handle receiving microseconds

  -- `basic_socket::set_timeout`
  unfoldable pub set_timeout : ℤ → (microseconds : ℤ) → Io W (Unit {0})
  set_timeout handle microseconds = do
    Posix.set_timeout k handle sending microseconds
    Posix.set_timeout k handle receiving microseconds

  -- `basic_stream_socket::receive`
  unfoldable pub receive : ℤ → (buffer : Option (List ℕ)) → (length : ℕ) → Io W (ℕ × List ℕ)
  receive handle buffer length = do
    lift (not_null buffer "buffer cannot be nullptr")
    lift (not_zero length "length cannot be zero")
    Posix.receive k handle length

  -- `basic_stream_socket::send`
  unfoldable pub send : ℤ → (buffer : Option (List ℕ)) → (length : ℕ) → Io W ℕ
  send handle buffer length = do
    lift (not_null buffer "buffer cannot be nullptr")
    lift (not_zero length "length cannot be zero")
    Posix.send k handle (pointee buffer) length

  -- `stream_socket::connect`
  unfoldable pub connect : ℤ → Address → Io W (Unit {0})
  connect handle remote_address = do
    lift (not_zero (length_of remote_address) "remote_address cannot be empty")
    Posix.connect k handle remote_address

  -- `if constexpr (socket_family::ipc == Protocol::family())`
  unfoldable pub unlink_if_ipc : SocketFamily → Address → Io W (Unit {0})
  unlink_if_ipc ipc local_address = Address.unlink k local_address
  unlink_if_ipc ipv4 local_address = pure tt
  unlink_if_ipc ipv6 local_address = pure tt

  -- `stream_server_socket::bind`
  unfoldable pub server_bind : SocketFamily → ℤ → Address → Io W (Unit {0})
  unfolding unlink_if_ipc
  server_bind family handle local_address = do
    lift (not_zero (length_of local_address) "address cannot be empty")
    unlink_if_ipc family local_address
    Posix.bind k handle local_address

  abbrev pub max_que : ℕ
  max_que = Posix.max_listen_que k

  -- `stream_server_socket::listen`
  unfoldable pub listen : ℤ → (queue_size : ℕ) → Io W (Unit {0})
  listen handle queue_size = Posix.listen k handle (min queue_size max_que)

  -- The destructor of the handle that `accept` gives to its handler.
  unfoldable pub close_all : List ℤ → W → Option W
  close_all [] w = some w
  close_all (h ∷ hs) w = elim (Posix.destroy k h w) [ none ↦ none | some w' ↦ close_all hs w' ]

  abbrev call_handler :
      Option (ℤ → W → Outcome (Unit {0}) × ℤ × W) → ℤ → W → Outcome (Unit {0}) × ℤ × W
  call_handler none s w = (ok tt, s, w)
  call_handler (some handler) s w = handler s w

  -- The handler runs on the new socket, whose destructor runs behind it.
  unfoldable pub serve :
      Option (ℤ → W → Outcome (Unit {0}) × ℤ × W) → Outcome ℤ × W → Option (Outcome (Unit {0}) × W)
  unfolding close_all
  serve handler (throws e, w) = some (throws e, w)
  serve handler (ok s, w) =
      let (result, left, w') = call_handler handler s w in
      closed result (close_all (destruct socket_resource left) w')

  -- `stream_server_socket::accept`. The handler takes the new socket by reference: it says what it
  -- leaves there, the socket itself or, when it moved from it, the invalid value. `none` is
  -- `std::terminate`.
  unfoldable pub accept :
      ℤ
      → (handler : Option (ℤ → W → Outcome (Unit {0}) × ℤ × W)) → W
      → Option (Outcome (Unit {0}) × W)
  unfolding serve
  accept handle handler w = elim (not_null handler "handler cannot be nullptr") [
    | throws e ↦ some (throws e, w)
    | ok _ ↦ serve handler (Posix.accept k handle w)
  ]

  -- `datagram_socket::bind`
  unfoldable pub datagram_bind : SocketFamily → ℤ → Address → Io W (Unit {0})
  unfolding unlink_if_ipc
  datagram_bind family handle local_address = do
    lift (not_zero (length_of local_address) "local_address cannot be empty")
    unlink_if_ipc family local_address
    Posix.bind k handle local_address

  -- `datagram_socket::send_to`
  unfoldable pub send_to : ℤ → Address → (buffer : Option (List ℕ)) → (length : ℕ) → Io W ℕ
  send_to handle remote_address buffer length = do
    lift (not_zero (length_of remote_address) "remote_address cannot be empty")
    lift (not_null buffer "buffer cannot be nullptr")
    lift (not_zero length "length cannot be zero")
    Posix.send_to k handle remote_address (pointee buffer) length

  -- `datagram_socket::receive_from`
  unfoldable pub receive_from :
      ℤ → (buffer : Option (List ℕ)) → (length : ℕ) → Io W (ℕ × List ℕ × Address)
  receive_from handle buffer length = do
    lift (not_null buffer "buffer cannot be nullptr")
    lift (not_zero length "length cannot be zero")
    Posix.receive_from k handle length
