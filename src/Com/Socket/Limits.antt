-- ===== src/Com/Socket/Limits.antt =====
-- Bounds of the numbers that go to the system calls and come back from them.

use cmake_template.Base.{
  ℕ, zero, suc, ◌≡◌, refl, true, List, Option, ℤ, minus_one, pos, negsuc, ◌≤◌, ◌<◌, ◌^◌, ◌%◌, min,
  ltb, uint_mod, ap, ◌∙◌, arith,
}
use cmake_template.Core.Contract.{
  Outcome, ok, throws, system_error, not_null, not_zero, no_system_error, is_system_error,
}
use cmake_template.System.Kernel.{Kernel, Io, lift, ◌>>◌, pure, and_then, Direction, sending}
use cmake_template.System.Posix
use cmake_template.System.Posix.{to_int, to_size, checked, settle, received}
use cmake_template.System.IpcAddress.{Address, length_of, address_size}
use cmake_template.Com.Socket
use cmake_template.Com.Socket.{pointee}

to_int-small : (n : ℕ) → n < 2 ^ 31 → to_int n ≡ pos n
to_int-small n small =
    let low : n % uint_mod ≡ n = omega arith in
    let test : ltb n (2 ^ 31) ≡ true = ground arith in rw low (rw test refl)

-- The result of a transfer of at most `length` bytes, as the system calls document it: an error, or
-- the number of bytes.
pub data IsTransfer (length : ℕ) : ℤ → Type 0 where
  failed : IsTransfer length minus_one
  transferred : (n : ℕ) → n ≤ length → IsTransfer length (pos n)

-- The size of what is returned is no more than `length`, when there is no exception.
unfoldable pub IsWithin : {A : Type 0} (size : A → ℕ) (length : ℕ) → Outcome A → Type 0
IsWithin size length (ok a) = size a ≤ length
IsWithin size length (throws e) = Unit

IsWithin-guard :
    {W A : Type 0} (size : A → ℕ) (length : ℕ) (o : Outcome (Unit {0})) (m : Io W A) (w : W)
    → IsWithin size length (m w).0
    → IsWithin size length ((lift o >> m) w).0
unfolding IsWithin
IsWithin-guard size length (ok _) m w h = h
IsWithin-guard size length (throws e) m w h = tt

module _ {W : Type 0} (k : Kernel W) where
  checked-error :
      (call : W → ℤ × W) (w : W)
      → (call w).0 ≡ minus_one
      → checked k call w ≡ (throws (system_error (k.errno (call w).1)), (call w).1)
  unfolding checked no_system_error is_system_error
  checked-error call w h = rw (h, checked) refl

  outcome_lem :
      (p : ℤ × W) → and_then (settle k p) (λ _. pure tt) ≡ (no_system_error (k.errno p.1) p.0, p.1)
  unfolding no_system_error is_system_error
  outcome_lem (pos n, w) = refl
  outcome_lem (negsuc zero, w) = refl
  outcome_lem (negsuc (suc n), w) = ground arith

  checked-outcome :
      (call : W → ℤ × W) (w : W) (r : ℤ) (w' : W)
      → call w ≡ (r, w')
      → and_then (checked k call w) (λ _. pure tt) ≡ (no_system_error (k.errno w') r, w')
  unfolding checked no_system_error is_system_error
  checked-outcome call w r w' e =
      outcome_lem (call w) ∙ ap (λ p. (no_system_error (k.errno p.1) p.0, p.1)) e

  settle-IsWithin :
      (length : ℕ) (p : ℤ × W)
      → IsTransfer length p.0
      → IsWithin (λ n. n) length (and_then (settle k p) (λ r. pure (to_size r))).0
  unfolding no_system_error is_system_error IsWithin
  settle-IsWithin length (_, w') failed = tt
  settle-IsWithin length (_, w') (transferred n h) = h

  answer-IsWithin :
      {A : Type 0} (size : A → ℕ) (length : ℕ) (r : ℤ) (a : A) (w : W)
      → size a ≡ to_size r
      → IsTransfer length r
      → IsWithin size length
          (elim (no_system_error (k.errno w) r) as (λ _. Outcome A × W) [
            | ok _ ↦ (ok a, w)
            | throws e ↦ (throws e, w)
          ]).0
  unfolding no_system_error is_system_error IsWithin
  answer-IsWithin size length _ a w same failed = tt
  answer-IsWithin size length _ a w same (transferred n h) = rw same h

module _ {W : Type 0} (k : Kernel W) (handle : ℤ) (w : W) where
  -- When SOMAXCONN is below 2^31, `listen` hands the system the smaller of the asked queue size and
  -- SOMAXCONN, which the cast to `int` keeps, for every queue size, and its outcome is that call's.
  pub listen-backlog :
      (queue_size : ℕ) (r : ℤ) (w' : W)
      → k.somaxconn < 2 ^ 31
      → k.listen handle (pos (min queue_size k.somaxconn)) w ≡ (r, w')
      → Socket.listen k handle queue_size w ≡ (no_system_error (k.errno w') r, w')
  unfolding Socket.listen Posix.listen
  listen-backlog queue_size r w' small e =
      let m : min queue_size k.somaxconn < 2 ^ 31 = ground arith in
      rw (to_int-small _ m)
        (checked-outcome k (k.listen handle (pos (min queue_size k.somaxconn))) w r w' e)

  -- Where the system refuses every timeout whose microseconds reach a million, which is its documented
  -- behaviour, `set_timeout` throws the system's error for every timeout of a second or more, and the
  -- receive timeout is not set at all.
  pub long_timeouts_refused :
      (microseconds : ℕ)
      → ((direction : Direction) (seconds us : ℕ) (v : W)
          → 1000000 ≤ us
          → (k.set_timeout handle direction seconds (pos us) v).0 ≡ minus_one)
      → 1000000 ≤ microseconds
      → let w' = (k.set_timeout handle sending 0 (pos microseconds) w).1 in
        Socket.set_timeout k handle (pos microseconds) w ≡ (throws (system_error (k.errno w')), w')
  unfolding Socket.set_timeout Posix.set_timeout
  long_timeouts_refused microseconds law long =
      rw
        (checked-error k (k.set_timeout handle sending 0 (pos microseconds)) w
          (law sending 0 microseconds w long))
        refl

  receive-IsWithin :
      (length : ℕ)
      → IsTransfer length (k.recv handle length 0 w).0
      → IsWithin (λ (n, bytes). n) length (Posix.receive k handle length w).0
  unfolding Posix.receive no_system_error is_system_error
  receive-IsWithin length law =
      let (r, bytes, w') = k.recv handle length 0 w in
      answer-IsWithin k (λ (n, read). n) length r (to_size r, bytes) w' refl law

  receive_from-IsWithin :
      (length : ℕ)
      → IsTransfer length (k.recvfrom handle length 0 address_size w).0
      → IsWithin (λ (n, bytes, source). n) length (Posix.receive_from k handle length w).0
  unfolding Posix.receive_from Posix.receive_from_sized no_system_error is_system_error
  receive_from-IsWithin length law =
      let (r, bytes, source, w') = k.recvfrom handle length 0 address_size w in
      answer-IsWithin k (λ (n, read, sender). n) length r (to_size r, bytes, source) w' refl law

  -- Where the system's `send`, `sendto`, `recv` and `recvfrom` return -1 or a number of bytes of at most
  -- the length they are given, so do the sockets' `send`, `send_to`, `receive` and `receive_from`, or
  -- they throw: the cast to `std::size_t` never turns an error into a huge count.
  pub counts_bounded :
      (buffer : Option (List ℕ)) (length : ℕ) (address : Address)
      → ((bytes : List ℕ) → IsTransfer length (k.send handle bytes length k.msg_nosignal w).0)
      → ((bytes : List ℕ)
          → IsTransfer length (k.sendto handle bytes length 0 address address_size w).0)
      → IsTransfer length (k.recv handle length 0 w).0
      → IsTransfer length (k.recvfrom handle length 0 address_size w).0
      → IsWithin (λ n. n) length (Socket.send k handle buffer length w).0
        × IsWithin (λ n. n) length (Socket.send_to k handle address buffer length w).0
        × IsWithin (λ (n, bytes). n) length (Socket.receive k handle buffer length w).0
        × IsWithin (λ (n, bytes, source). n) length (Socket.receive_from k handle buffer length w).0
  unfolding Socket.receive_from Socket.send Socket.send_to Socket.receive Posix.send Posix.send_to
      Posix.send_to_sized Posix.receive checked
  counts_bounded buffer length address law_send law_sendto law_recv law_recvfrom = (
    IsWithin-guard _ _ (not_null buffer _) _ _ (
        IsWithin-guard _ _ (not_zero length _) _ _ (
          settle-IsWithin k length (k.send handle (pointee buffer) length k.msg_nosignal w)
            (law_send _))),
    IsWithin-guard _ _ (not_zero (length_of address) _) _ _ (
        IsWithin-guard _ _ (not_null buffer _) _ _ (
          IsWithin-guard _ _ (not_zero length _) _ _ (
            settle-IsWithin k length
              (k.sendto handle (pointee buffer) length 0 address address_size w) (law_sendto _)))),
    IsWithin-guard _ _ (not_null buffer _) _ _
        (IsWithin-guard _ _ (not_zero length _) _ _ (receive-IsWithin length law_recv)),
    IsWithin-guard _ _ (not_null buffer _) _ _
        (IsWithin-guard _ _ (not_zero length _) _ _ (receive_from-IsWithin length law_recvfrom)),
  )
