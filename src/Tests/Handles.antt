-- ===== src/Tests/Handles.antt =====
-- basic_handle.hpp over sockets, and addresses and enumerators.
use cmake_template.Base.{
  ℕ, ◌+◌, ◌<◌, ◌≤◌, ◌≡◌, ◌⊎◌, ◌↔◌, refl, true, false, List, [], ◌∷◌, none, some, length, weigh, ℤ,
  pos, minus_one, arith,
}
use cmake_template.Core.Contract.{invalid_argument, ok, throws}
use cmake_template.System.Handle.{is_valid, move_construct, destruct}
use cmake_template.System.Handle.Ownership
use cmake_template.System.Handle.Ownership.{Program, Reach, start, later, owned, one_owner}
use cmake_template.System.IpcAddress.{
  Address, max_length, construct, to_string_view, length_of, before_nul, equal,
}
use cmake_template.System.IpcAddress.View.{construct-round_trip, equal-construct}
use cmake_template.Com.Enums.{family_name, mode_name, mode_to_integral}
use cmake_template.Com.Enums.Printing.{
  OutputStream, print_family, print_mode, Prints, enumerators_printed,
}
use cmake_template.Com.Socket.{socket_resource}

abbrev one : ℤ → ℕ
one v = 1

-- Two sockets, the first moved from and its new handle destroyed.
abbrev moved_and_closed : Program socket_resource
moved_and_closed = record {
  handles = some minus_one ∷ some (pos 4) ∷ none ∷ [];
  opened = pos 3 ∷ pos 4 ∷ [];
  closed = pos 3 ∷ [];
}

moved_and_closed-Reach : Reach socket_resource moved_and_closed
unfolding move_construct destruct is_valid
moved_and_closed-Reach =
    later
      (later
        (later (later start (Ownership.constructs (pos 3) refl))
          (Ownership.constructs (pos 4) refl))
        (Ownership.moves 0 (pos 3) refl))
      (Ownership.destroys 2 (pos 3) refl)

one_owner_example :
    weigh one moved_and_closed.closed + owned socket_resource one moved_and_closed.handles
    ≡ weigh one moved_and_closed.opened
one_owner_example = one_owner socket_resource one moved_and_closed-Reach

abbrev path : List ℕ
path = 47 ∷ 116 ∷ 109 ∷ 112 ∷ []

construct-round_trip_example :
    ((length path ≤ max_length)
      × (a : Address) × (construct path ≡ ok a)
      × (to_string_view a ≡ path)
      × (length_of a ≡ length path))
    ⊎ ((max_length < length path)
        × (construct path ≡ throws (invalid_argument "socket path is too long")))
construct-round_trip_example =
    construct-round_trip path (omega arith, (omega arith, (omega arith, (omega arith, tt))))

abbrev cut_path : List ℕ
cut_path = 47 ∷ 116 ∷ 0 ∷ 112 ∷ []

equal-construct_example :
    (a b : Address) × (construct cut_path ≡ ok a)
    × (construct path ≡ ok b)
    × (to_string_view a ≡ before_nul cut_path)
    × (length_of a ≤ max_length)
    × ((equal a b ≡ true) ↔ (before_nul cut_path ≡ before_nul path))
equal-construct_example = equal-construct cut_path path (omega arith) (omega arith)

-- 10 is a family; 3 is none.
printed_families :
    let os : OutputStream = record { printed = []; failed = false } in
    (print_family (pos 10) os ≡ record { printed = "IPv6" ∷ []; failed = false })
    × (print_family (pos 3) os ≡ record { printed = []; failed = true })
unfolding print_family family_name
printed_families = (refl, refl)

modes_printed :
    Prints mode_name mode_to_integral print_mode (record { printed = []; failed = false }) (pos 3)
modes_printed = (enumerators_printed (record { printed = []; failed = false }) (pos 3) refl).3
