-- ===== src/Com/Protocol.antt =====
-- lib_static/inc/jar/com/basic_protocol.hpp, and the protocol of lib_static/inc/jar/com/ipc/ipc.hpp.
use cmake_template.Com.Enums.{SocketFamily, ipc, SocketProtocol, unspecified}

pub record Protocol : Type 0 where
  pub family : SocketFamily
  pub protocol : SocketProtocol

abbrev pub ipc_protocol : Protocol
ipc_protocol = record { family = ipc; protocol = unspecified }
