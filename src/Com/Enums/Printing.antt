-- ===== src/Com/Enums/Printing.antt =====
-- lib_static/src/jar/com/{socket_family,socket_type,socket_protocol,shutdown_mode}.cpp: `operator<<`,
-- on any value of the type `int` that stands under each enumeration.
use Prim.Native.String.{String}
use cmake_template.Base.{
  ℕ, ℤ, pos, eq_int, inl, inr, ◌≡◌, refl, ◌↔◌, Bool, true, false, List, [], ◌∷◌, ◌++◌, Option, none,
  some, if◌then◌else◌, Option-cases, arith,
}
use cmake_template.Com.Enums.{
  SocketFamily, ipc, ipv4, ipv6, SocketType, stream, datagram, SocketProtocol, unspecified,
  ShutdownMode, family_to_integral, type_to_integral, protocol_to_integral, mode_to_integral,
  family_name, type_name, protocol_name, mode_name,
}

-- `std::ostream`: what has been put into it, and its failbit.
pub record OutputStream : Type 0 where
  pub printed : List String
  pub failed : Bool

-- `os << "..."` prints nothing on a stream that has failed.
abbrev pub put : String → OutputStream → OutputStream
put s os = if os.failed then os else record os { printed = os.printed ++ (s ∷ []) }

abbrev pub set_failbit : OutputStream → OutputStream
set_failbit os = record os { failed = true }

-- The `switch`, over the enumerator that a value is.
abbrev pub put_name : {E : Type 0} → (E → String) → Option E → OutputStream → OutputStream
put_name name none os = set_failbit os
put_name name (some e) os = put (name e) os

abbrev pub as_family : ℤ → Option SocketFamily
as_family v =
    if eq_int v (pos 1)
    then some ipc
    else if eq_int v (pos 2)
    then some ipv4
    else if eq_int v (pos 10)
    then some ipv6
    else none

abbrev pub as_type : ℤ → Option SocketType
as_type v =
    if eq_int v (pos 1) then some stream else if eq_int v (pos 2) then some datagram else none

abbrev pub as_protocol : ℤ → Option SocketProtocol
as_protocol v = if eq_int v (pos 0) then some unspecified else none

abbrev pub as_mode : ℤ → Option ShutdownMode
as_mode v =
    if eq_int v (pos 0)
    then some ShutdownMode.receive
    else if eq_int v (pos 1)
    then some ShutdownMode.send
    else if eq_int v (pos 2)
    then some ShutdownMode.both
    else none

unfoldable pub print_family : ℤ → OutputStream → OutputStream
print_family v = put_name family_name (as_family v)

unfoldable pub print_type : ℤ → OutputStream → OutputStream
print_type v = put_name type_name (as_type v)

unfoldable pub print_protocol : ℤ → OutputStream → OutputStream
print_protocol v = put_name protocol_name (as_protocol v)

unfoldable pub print_mode : ℤ → OutputStream → OutputStream
print_mode v = put_name mode_name (as_mode v)

-- The enumerators and their numbers, both ways.
record Reads {E : Type 0} (to_integral : E → ℕ) (as_enumerator : ℤ → Option E) : Type 0 where
  pub reads : (e : E) → as_enumerator (pos (to_integral e)) ≡ some e
  pub is_read : (v : ℤ) (e : E) → as_enumerator v ≡ some e → v ≡ pos (to_integral e)

-- A stream that has not failed fails exactly at the values that are no enumerators, and otherwise
-- has the name behind what was printed before.
abbrev pub Prints :
    {E : Type 0} (name : E → String) (to_integral : E → ℕ) (print : ℤ → OutputStream → OutputStream)
    → OutputStream
    → ℤ
    → Type 0
Prints {E} name to_integral print os v =
    (((print v os).failed ≡ false) ↔ ((e : E) × (v ≡ pos (to_integral e))))
    × ((e : E)
        → print (pos (to_integral e)) os ≡ record os { printed = os.printed ++ (name e ∷ []) })

module _ {E : Type 0} (name : E → String) {to_integral : E → ℕ} {as_enumerator : ℤ → Option E}
    (h : Reads to_integral as_enumerator) (os : OutputStream) (g : os.failed ≡ false) where
  found :
      (v : ℤ)
      → (put_name name (as_enumerator v) os).failed ≡ false
      → (e : E) × (v ≡ pos (to_integral e))
  found v k = elim (Option-cases (as_enumerator v)) [
    | inl none_found ↦ absurd (cc (rw none_found at k))
    | inr (e, e_found) ↦ (e, Reads.is_read h v e e_found)
  ]

  prints : (v : ℤ) → Prints name to_integral (λ u. put_name name (as_enumerator u)) os v
  prints v = (
    (found v, λ (e, same). rw same (rw (Reads.reads h e) (rw g refl))),
    λ e. rw (Reads.reads h e) (rw g refl),
  )

family-Reads : Reads family_to_integral as_family
unfolding family_to_integral
family-Reads = record { reads = λ e. ground arith; is_read = λ v e h. ground arith }

type-Reads : Reads type_to_integral as_type
unfolding type_to_integral
type-Reads = record { reads = λ e. ground arith; is_read = λ v e h. ground arith }

protocol-Reads : Reads protocol_to_integral as_protocol
unfolding protocol_to_integral
protocol-Reads = record { reads = λ e. ground arith; is_read = λ v e h. ground arith }

mode-Reads : Reads mode_to_integral as_mode
unfolding mode_to_integral
mode-Reads = record { reads = λ e. ground arith; is_read = λ v e h. ground arith }

-- Printing into a stream that has not failed: the stream fails exactly at the values that are no
-- enumerators, and an enumerator puts its name behind what was printed before.
pub enumerators_printed :
    (os : OutputStream) (v : ℤ)
    → os.failed ≡ false
    → Prints family_name family_to_integral print_family os v
      × Prints type_name type_to_integral print_type os v
      × Prints protocol_name protocol_to_integral print_protocol os v
      × Prints mode_name mode_to_integral print_mode os v
unfolding print_family print_type print_protocol print_mode
enumerators_printed os v g = (
  prints family_name family-Reads os g v,
  prints type_name type-Reads os g v,
  prints protocol_name protocol-Reads os g v,
  prints mode_name mode-Reads os g v,
)
