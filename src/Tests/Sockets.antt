-- ===== src/Tests/Sockets.antt =====
-- The sockets over a system whose state counts the calls and whose calls have fixed results.
use Prim.Native.Nat.{bit_and}
use cmake_template.Base.{
  zero, suc, Bool, true, false, subst, Option, none, ◌==◌, ap, ℕ, ◌+◌, ◌≤◌, ◌≡◌, ◌⊎◌, inr, refl,
  ltb, if◌then◌else◌, List, [], ◌∷◌, some, ℤ, pos, negsuc, minus_one, arith,
}
use cmake_template.Core.Contract.{
  Outcome, ok, throws, system_error, not_null, no_system_error, is_system_error,
}
use cmake_template.System.IpcAddress.{Address, zero_address, to_string_view, length_of, before_nul}
use cmake_template.System.Kernel.{Kernel, Direction}
use cmake_template.System.Posix
use cmake_template.System.Posix.Flags.{
  SetsFlags, AllOpen, last_mode, set_modes, is_on, is_non_blocking-set_modes,
}
use cmake_template.System.Handle.{destruct, is_valid}
use cmake_template.Com.Protocol.{ipc_protocol}
use cmake_template.Com.Socket.Descriptors.{
  CountsDescriptors, Handles, MovedAway, kept, descriptors_kept,
}
use cmake_template.Com.Enums.{ipc}
use cmake_template.Com.Socket
use cmake_template.Com.Socket.Calls.{
  server_bind, non_blocking, objections, script, run, perform, nothing,
}
use cmake_template.Com.Socket.Performs.{run-perform}
use cmake_template.Com.Socket.Limits.{transferred, IsWithin, long_timeouts_refused, counts_bounded}

-- `setsockopt` takes timeouts below a second; `error` is what `errno` shows after any call.
abbrev timeout_result : ℤ → ℤ
timeout_result (pos us) = if ltb us 1000000 then pos 0 else minus_one
timeout_result (negsuc n) = minus_one

abbrev counting : {W : Type 0} → (next : W → W) → (unlinked : ℤ) (error : ℕ) → Kernel W
counting next unlinked error = record {
  errno = λ w. error;
  o_nonblock = 2048;
  msg_nosignal = 16384;
  enoent = 2;
  somaxconn = 4096;
  socket = λ d t p w. (pos 3, next w);
  close = λ h w. (pos 0, next w);
  get_flags = λ h w. (pos 0, next w);
  set_flags = λ h f w. (pos 0, next w);
  shutdown = λ h m w. (pos 0, next w);
  get_send_buffer = λ h w. (pos 0, 8, next w);
  set_timeout = λ h d s us w. (timeout_result us, next w);
  listen = λ h b w. (pos 0, next w);
  accept = λ h w. (pos 4, next w);
  bind = λ h a l w. (pos 0, next w);
  connect = λ h a l w. (pos 0, next w);
  recv = λ h n f w. (pos 0, [], next w);
  send = λ h b n f w. (pos n, next w);
  recvfrom = λ h n f l w. (pos 0, [], zero_address, next w);
  sendto = λ h b n f a l w. (pos n, next w);
  unlink = λ p w. (unlinked, next w);
}

abbrev working : Kernel ℕ
working = counting (λ w. w + 1) (pos 0) 0

-- `unlink` fails, with EPERM.
abbrev refusing : Kernel ℕ
refusing = counting (λ w. w + 1) minus_one 1

abbrev address : Address
address = record { sun_family = 1; sun_path = 47 ∷ 97 ∷ 0 ∷ [] }

abbrev nowhere : Address
nowhere = record { sun_family = 1; sun_path = 0 ∷ [] }

abbrev bytes : List ℕ
bytes = 1 ∷ 2 ∷ []

run-perform_example :
    run refusing (pos 3) (server_bind ipc address) 0
    ≡ perform refusing
        (pos 3)
        (objections (server_bind ipc address))
        (script refusing (server_bind ipc address))
        0
run-perform_example = run-perform refusing (pos 3) (server_bind ipc address) 0

-- There the `unlink` fails with EPERM, and the system's `bind` is not called.
run_refused : run refusing (pos 3) (server_bind ipc address) 0 ≡ (throws (system_error 1), 1)
unfolding length_of to_string_view before_nul
run_refused = run-perform refusing (pos 3) (server_bind ipc address) 0

-- Two calls of the system.
run_flags : run working (pos 3) (non_blocking true) 0 ≡ (ok nothing, 2)
run_flags = run-perform working (pos 3) (non_blocking true) 0

timeouts_below_second :
    (direction : Direction) (seconds us : ℕ) (v : ℕ)
    → 1000000 ≤ us
    → (working.set_timeout (pos 3) direction seconds (pos us) v).0 ≡ minus_one
timeouts_below_second direction seconds us v h = ground arith

long_timeouts_refused_example :
    Socket.set_timeout working (pos 3) (pos 1500000) 0 ≡ (throws (system_error 0), 1)
long_timeouts_refused_example =
    long_timeouts_refused working (pos 3) 0 1500000 timeouts_below_second (omega arith)

counts_bounded_example :
    IsWithin (λ n. n) 2 (Socket.send working (pos 3) (some bytes) 2 0).0
    × IsWithin (λ n. n) 2 (Socket.send_to working (pos 3) address (some bytes) 2 0).0
    × IsWithin (λ (n, read). n) 2 (Socket.receive working (pos 3) (some bytes) 2 0).0
    × IsWithin (λ (n, read, source). n) 2 (Socket.receive_from working (pos 3) (some bytes) 2 0).0
counts_bounded_example =
    counts_bounded working (pos 3) 0 (some bytes) 2 address (λ b. transferred 2 (omega arith))
      (λ b. transferred 2 (omega arith)) (transferred 0 (omega arith)) (transferred 0 (omega arith))

-- A process with descriptors 3 and 4 for one open file description, and 5 for another; the state is
-- the flags of the descriptions.
abbrev table : ℤ → Option ℕ
table (pos n) =
    if n == 3 then some 0 else if n == 4 then some 0 else if n == 5 then some 1 else none
table (negsuc n) = none

abbrev set_at : Option ℕ → ℕ → (ℕ → ℕ) → ℕ → ℕ
set_at none new flags d = flags d
set_at (some e) new flags d = if d == e then new else flags d

-- EBADF is -1 here.
abbrev read_flags : Option ℕ → (ℕ → ℕ) → ℤ
read_flags none w = minus_one
read_flags (some d) w = pos (w d)

abbrev write_result : Option ℕ → ℤ
write_result none = minus_one
write_result (some d) = pos 0

abbrev flagged : Kernel (ℕ → ℕ)
flagged = record (counting (λ w. w) (pos 0) 9) {
  get_flags = λ h w. (read_flags (table h) w, w);
  set_flags = λ h new w. (write_result (table h), set_at (table h) new w);
}

set_at-same : (d new : ℕ) (w : ℕ → ℕ) → set_at (some d) new w d ≡ new
set_at-same d new w = ground arith

flagged-SetsFlags : SetsFlags flagged (λ w. table) (λ d w. w d)
flagged-SetsFlags = record {
  is_bit = omega arith;
  reads = λ h d w f. rw f refl;
  accepts = λ h d mode w f. (0, rw f refl);
  writes = λ h d mode w f. ap (λ z. bit_and z 2048) (rw f (set_at-same d _ w));
  others = λ h d e mode w f different. rw f (rw different refl);
  keeps = λ h d mode w f. refl;
}

abbrev mode_calls : List (ℤ × Bool)
mode_calls = (pos 3, true) ∷ (pos 5, true) ∷ (pos 4, false) ∷ (pos 3, true) ∷ (pos 5, false) ∷ []

mode_calls-AllOpen : AllOpen table mode_calls
mode_calls-AllOpen = ((0, refl), ((1, refl), ((0, refl), ((0, refl), ((1, refl), tt)))))

is_non_blocking-set_modes_example :
    (w' : ℕ → ℕ) × (set_modes flagged mode_calls (λ d. 2) ≡ (ok tt, w'))
    × (Posix.is_non_blocking flagged (pos 4) w'
        ≡ (ok (last_mode table 0 mode_calls (is_on flagged (λ d w. w d) 0 (λ d. 2))), w'))
is_non_blocking-set_modes_example =
    is_non_blocking-set_modes flagged (λ w. table) (λ d w. w d) flagged-SetsFlags mode_calls (pos 4)
      0 table (λ d. 2) refl mode_calls-AllOpen refl

-- A call on descriptor 3 has set it last.
last_mode_set : last_mode table 0 mode_calls false ≡ true
last_mode_set = refl

-- A system whose state is the number of open descriptors.
abbrev close_one : ℕ → ℤ × ℕ
close_one zero = (minus_one, 0)
close_one (suc n) = (pos 0, n)

abbrev tallying : Kernel ℕ
tallying = record working { close = λ h w. close_one w }

close_one_closes : (w : ℕ) → is_system_error (close_one w).0 ≡ false → (close_one w).1 + 1 ≡ w
unfolding is_system_error
close_one_closes zero e = absurd (cc e)
close_one_closes (suc n) e = omega arith

tallying-CountsDescriptors : CountsDescriptors tallying (λ w. w)
tallying-CountsDescriptors = record {
  socket_opens = λ d t p w. refl;
  accept_opens = λ h w. refl;
  close_closes = λ h w. close_one_closes w;
}

-- A handler that keeps the new socket for itself.
abbrev adopts : ℤ → ℕ → Outcome (Unit {0}) × ℤ × ℕ
adopts s w = (ok tt, minus_one, w)

adopts-Handles :
    (f : ℤ → ℕ → Outcome (Unit {0}) × ℤ × ℕ) → some adopts ≡ some f → Handles (λ w. w) f
adopts-Handles f e =
    let same : adopts ≡ f = cc in subst (Handles (λ w. w)) same (λ s w. (inr refl, refl))

abbrev open_before : ℕ
open_before = 5

descriptors_kept_example :
    ((open_before + 1 ≡ open_before)
      ⊎ (MovedAway (some adopts) (tallying.accept (pos 3) open_before)
          × (open_before + 1 ≡ open_before + 1)))
    × ((Socket.stream_server_socket tallying ipc_protocol 5).1
        ≡ 5 + kept (Socket.stream_server_socket tallying ipc_protocol 5).0)
    × ((Socket.datagram_socket tallying ipc_protocol 5).1
        ≡ 5 + kept (Socket.datagram_socket tallying ipc_protocol 5).0)
unfolding Socket.accept Socket.serve Socket.close_all Posix.accept Posix.checked not_null
    no_system_error is_system_error destruct is_valid
descriptors_kept_example =
    descriptors_kept tallying (λ w. w) tallying-CountsDescriptors ipc_protocol (pos 3) (some adopts)
      5 (ok tt) 6 adopts-Handles refl
