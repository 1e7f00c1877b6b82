-- ===== src/Com/Enums.antt =====
-- lib_static/{inc,src}/jar/com: the enumerations of the sockets. The functions `…_to_integral` are
-- `to_integral` of lib_header/inc/jar/core/enum.hpp at each of them; the functions `…_name` say what
-- `operator<<` prints for an enumerator, of which `Printing` has the rest.
pub mod Printing
use Prim.Native.String.{String}
use mathlib.Core.Bool.{false≢true}
use text.Mathlib.Text.{◌==◌ as str_eq}
use text.Mathlib.TextEquality.{eq_iff}
use cmake_template.Base.{ℕ, ◌≡◌, refl, ap, sym, ◌∙◌, ◌≢◌, false, ◌↔◌, arith}

pub data SocketFamily : Type 0 where
  ipc ipv4 ipv6 : SocketFamily

pub data SocketType : Type 0 where
  stream datagram : SocketType

pub data SocketProtocol : Type 0 where
  unspecified : SocketProtocol

pub data ShutdownMode : Type 0 where
  receive send both : ShutdownMode

unfoldable pub family_to_integral : SocketFamily → ℕ
family_to_integral ipc = 1
family_to_integral ipv4 = 2
family_to_integral ipv6 = 10

unfoldable pub type_to_integral : SocketType → ℕ
type_to_integral stream = 1
type_to_integral datagram = 2

unfoldable pub protocol_to_integral : SocketProtocol → ℕ
protocol_to_integral unspecified = 0

unfoldable pub mode_to_integral : ShutdownMode → ℕ
mode_to_integral receive = 0
mode_to_integral send = 1
mode_to_integral both = 2

unfoldable pub family_name : SocketFamily → String
family_name ipc = "IPC"
family_name ipv4 = "IPv4"
family_name ipv6 = "IPv6"

unfoldable pub type_name : SocketType → String
type_name stream = "stream"
type_name datagram = "datagram"

unfoldable pub protocol_name : SocketProtocol → String
protocol_name unspecified = "unspecified"

unfoldable pub mode_name : ShutdownMode → String
mode_name receive = "receive"
mode_name send = "send"
mode_name both = "both"

family_to_integral-injective :
    (a b : SocketFamily) → family_to_integral a ≡ family_to_integral b → a ≡ b
unfolding family_to_integral
family_to_integral-injective a b h = ground arith

type_to_integral-injective : (a b : SocketType) → type_to_integral a ≡ type_to_integral b → a ≡ b
unfolding type_to_integral
type_to_integral-injective a b h = ground arith

mode_to_integral-injective : (a b : ShutdownMode) → mode_to_integral a ≡ mode_to_integral b → a ≡ b
unfolding mode_to_integral
mode_to_integral-injective a b h = ground arith

texts_differ : (s t : String) → str_eq s t ≡ false → s ≢ t
texts_differ s t d e = false≢true (sym d ∙ (eq_iff s t).1 e)

family_name-injective : (a b : SocketFamily) → family_name a ≡ family_name b → a ≡ b
unfolding family_name
family_name-injective ipc ipc h = refl
family_name-injective ipc ipv4 h = absurd (texts_differ _ _ refl h)
family_name-injective ipc ipv6 h = absurd (texts_differ _ _ refl h)
family_name-injective ipv4 ipc h = absurd (texts_differ _ _ refl h)
family_name-injective ipv4 ipv4 h = refl
family_name-injective ipv4 ipv6 h = absurd (texts_differ _ _ refl h)
family_name-injective ipv6 ipc h = absurd (texts_differ _ _ refl h)
family_name-injective ipv6 ipv4 h = absurd (texts_differ _ _ refl h)
family_name-injective ipv6 ipv6 h = refl

mode_name-injective : (a b : ShutdownMode) → mode_name a ≡ mode_name b → a ≡ b
unfolding mode_name
mode_name-injective receive receive h = refl
mode_name-injective receive send h = absurd (texts_differ _ _ refl h)
mode_name-injective receive both h = absurd (texts_differ _ _ refl h)
mode_name-injective send receive h = absurd (texts_differ _ _ refl h)
mode_name-injective send send h = refl
mode_name-injective send both h = absurd (texts_differ _ _ refl h)
mode_name-injective both receive h = absurd (texts_differ _ _ refl h)
mode_name-injective both send h = absurd (texts_differ _ _ refl h)
mode_name-injective both both h = refl

type_name-injective : (a b : SocketType) → type_name a ≡ type_name b → a ≡ b
unfolding type_name
type_name-injective stream stream h = refl
type_name-injective stream datagram h = absurd (texts_differ _ _ refl h)
type_name-injective datagram stream h = absurd (texts_differ _ _ refl h)
type_name-injective datagram datagram h = refl

-- The numbers that go to the system calls tell the enumerators apart, and so do the printed names:
-- two families, two types or two shutdown modes with one number, or with one name, are the same.
pub enumerators_distinct :
    (a b : SocketFamily) (c d : SocketType) (e f : ShutdownMode)
    → ((family_to_integral a ≡ family_to_integral b) ↔ (a ≡ b))
      × ((type_to_integral c ≡ type_to_integral d) ↔ (c ≡ d))
      × ((mode_to_integral e ≡ mode_to_integral f) ↔ (e ≡ f))
      × ((family_name a ≡ family_name b) ↔ (a ≡ b))
      × ((type_name c ≡ type_name d) ↔ (c ≡ d))
      × ((mode_name e ≡ mode_name f) ↔ (e ≡ f))
enumerators_distinct a b c d e f = (
  (family_to_integral-injective a b, ap family_to_integral),
  (type_to_integral-injective c d, ap type_to_integral),
  (mode_to_integral-injective e f, ap mode_to_integral),
  (family_name-injective a b, ap family_name),
  (type_name-injective c d, ap type_name),
  (mode_name-injective e f, ap mode_name),
)
