-- ===== src/Com/Ipc.antt =====
-- lib_static/inc/jar/com/ipc/ipc.hpp: the sockets for the local host.
use cmake_template.Base.{ℤ}
use cmake_template.System.Kernel.{Kernel, Io}
use cmake_template.Com.Protocol.{ipc_protocol}
use cmake_template.Com.Socket

-- `ipc::datagram_socket`, `ipc::stream_socket` and `ipc::stream_server_socket`, constructed.
module _ {W : Type 0} (k : Kernel W) where
  unfoldable pub datagram_socket : Io W ℤ
  datagram_socket = Socket.datagram_socket k ipc_protocol

  unfoldable pub stream_socket : Io W ℤ
  stream_socket = Socket.stream_socket k ipc_protocol

  unfoldable pub stream_server_socket : Io W ℤ
  stream_server_socket = Socket.stream_server_socket k ipc_protocol
