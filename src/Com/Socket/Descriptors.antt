-- ===== src/Com/Socket/Descriptors.antt =====
-- The file descriptors that the sockets open and close.
use cmake_template.Base.{
  ℕ, zero, suc, ◌+◌, ◌≡◌, refl, sym, ap, ◌∙◌, ◌⊎◌, inl, inr, Bool, true, false, [], ◌∷◌, Option,
  none, some, ℤ, pos, negsuc, arith,
}
use cmake_template.Core.Contract.{Outcome, ok, throws, no_system_error, is_system_error, not_null}
use cmake_template.System.Handle.{destruct, is_valid}
use cmake_template.System.Kernel.{Kernel}
use cmake_template.System.Posix
use cmake_template.System.Posix.{settle, checked}
use cmake_template.Com.Enums.{
  SocketType, stream, datagram, family_to_integral, type_to_integral, protocol_to_integral,
}
use cmake_template.Com.Protocol.{Protocol}
use cmake_template.Com.Socket
use cmake_template.Com.Socket.{serve, close_all, socket_resource, closed}

-- Calls that return a new descriptor add one to those that are open.
abbrev opened : ℤ → ℕ
opened (pos n) = 1
opened (negsuc zero) = 0
opened (negsuc (suc n)) = 1

-- A system whose open descriptors `open` counts: `socket` and `accept` open one unless they fail, and
-- `close`, when it works, closes one.
pub record CountsDescriptors {W : Type 0} (k : Kernel W) (count : W → ℕ) : Type 0 where
  pub socket_opens :
      (d t p : ℕ) (w : W) → count (k.socket d t p w).1 ≡ count w + opened (k.socket d t p w).0
  pub accept_opens : (h : ℤ) (w : W) → count (k.accept h w).1 ≡ count w + opened (k.accept h w).0
  pub close_closes :
      (h : ℤ) (w : W)
      → is_system_error (k.close h w).0 ≡ false
      → count (k.close h w).1 + 1 ≡ count w

-- The handler leaves the new socket in place, or moves it away; it opens and closes nothing itself.
abbrev pub Handles : {W : Type 0} → (W → ℕ) → (ℤ → W → Outcome (Unit {0}) × ℤ × W) → Type 0
Handles {W} count handler =
    (s : ℤ) (w : W)
    → (((handler s w).1 ≡ s) ⊎ ((handler s w).1 ≡ Posix.invalid_value))
      × (count (handler s w).2 ≡ count w)

-- The socket that `accept` returned is with the handler's owner now.
abbrev pub MovedAway :
    {W : Type 0} → Option (ℤ → W → Outcome (Unit {0}) × ℤ × W) → (accepted : ℤ × W) → Type 0
MovedAway none accepted = ⊥
MovedAway (some f) (s, w) = (f s w).1 ≡ Posix.invalid_value

-- How many descriptors a constructor leaves open.
abbrev pub kept : Outcome ℤ → ℕ
kept (ok s) = 1
kept (throws e) = 0

module _ {W : Type 0} (k : Kernel W) (count : W → ℕ) (law : CountsDescriptors k count) where
  settle-kept : (p : ℤ × W) → kept (settle k p).0 ≡ opened p.0
  unfolding no_system_error is_system_error
  settle-kept (pos n, w) = refl
  settle-kept (negsuc zero, w) = refl
  settle-kept (negsuc (suc n), w) = ground arith

  settle-valid : (m : ℕ) (w : W) → settle k (negsuc (suc m), w) ≡ (ok (negsuc (suc m)), w)
  unfolding no_system_error is_system_error
  settle-valid m w = ground arith

  settle-world : (p : ℤ × W) → (settle k p).1 ≡ p.1
  unfolding no_system_error is_system_error
  settle-world (pos n, w) = refl
  settle-world (negsuc zero, w) = refl
  settle-world (negsuc (suc n), w) = ground arith

  basic_socket-kept :
      (p : Protocol) (type : SocketType) (w : W)
      → let (r, w') = Socket.basic_socket k p type w in count w' ≡ count w + kept r
  unfolding Socket.basic_socket Posix.construct checked
  basic_socket-kept p type w =
      let call =
        k.socket (family_to_integral p.family) (type_to_integral type)
          (protocol_to_integral p.protocol) w in
      rw (settle-world call) (rw (settle-kept call) (law.socket_opens _ _ _ w))

  close_all-one : (s : ℤ) (w w' : W) → close_all k (s ∷ []) w ≡ some w' → count w' + 1 ≡ count w
  unfolding close_all Posix.destroy
  close_all-one s w w' e = close_result (is_system_error (k.close s w).0) refl
    where
      close_result : (b : Bool) → is_system_error (k.close s w).0 ≡ b → count w' + 1 ≡ count w
      close_result true f = absurd (cc (e, f))
      close_result false f =
          let done : some (k.close s w).1 ≡ some w' = rw (close_all, f) at e in
          let same : (k.close s w).1 ≡ w' = cc in rw (sym same) (law.close_closes s w f)

  closed_some :
      (x result : Outcome (Unit {0})) (o : Option W) (w' : W)
      → closed x o ≡ some (result, w')
      → o ≡ some w'
  closed_some x result none w' e = absurd (cc e)
  closed_some x result (some w) w' e = cc

  -- A new socket that the handler left in place is closed, and one that it moved away is not.
  closed_behind :
      (f : ℤ → W → Outcome (Unit {0}) × ℤ × W) (s : ℤ) (w w' : W) (result : Outcome (Unit {0}))
      → Handles count f
      → is_valid socket_resource s ≡ true
      → serve k (some f) (ok s, w) ≡ some (result, w')
      → (count w' + 1 ≡ count w) ⊎ (MovedAway (some f) (s, w) × (count w' ≡ count w))
  unfolding serve destruct is_valid close_all
  closed_behind f s w w' result h v e = elim (h s w).0 [
    | inl left ↦
        let destroyed : destruct socket_resource (f s w).1 ≡ s ∷ [] = rw (left, v) refl in
        let gone = closed_some (f s w).0 result _ w' (rw destroyed at e) in
        inl (close_all-one s (f s w).2 w' gone ∙ (h s w).1)
    | inr moved ↦
        let destroyed : destruct socket_resource (f s w).1 ≡ [] = rw moved refl in
        let gone = closed_some (f s w).0 result (some (f s w).2) w' (rw destroyed at e) in
        let same : (f s w).2 ≡ w' = cc in inr (moved, ap count (sym same) ∙ (h s w).1)
  ]

  serve-count :
      (f : ℤ → W → Outcome (Unit {0}) × ℤ × W) (p : ℤ × W) (w' : W) (result : Outcome (Unit {0}))
      (n : ℕ)
      → Handles count f
      → count p.1 ≡ n + opened p.0
      → serve k (some f) (settle k p) ≡ some (result, w')
      → (count w' ≡ n) ⊎ (MovedAway (some f) p × (count w' ≡ n + 1))
  unfolding serve no_system_error is_system_error is_valid
  serve-count f (negsuc zero, w) w' result n h o e =
      let same : w ≡ w' = cc in inl (rw (sym same) (omega (arith, o)))
  serve-count f (pos m, w) w' result n h o e = elim (closed_behind f (pos m) w w' result h refl e) [
    | inl c ↦ inl (omega (arith, o, c))
    | inr (t, c) ↦ inr (t, omega (arith, o, c))
  ]
  serve-count f (negsuc (suc m), w) w' result n h o e =
      elim (closed_behind f (negsuc (suc m)) w w' result h (ground arith)
        (rw (settle-valid m w) at e)) [
          | inl c ↦ inl (omega (arith, o, c))
          | inr (t, c) ↦ inr (t, omega (arith, o, c))
        ]

  -- No descriptor is lost. On a system whose open descriptors `count` counts, with a handler that
  -- leaves the new socket in place or moves it away, or with no handler: `accept`, whether the system
  -- refuses, the handler throws or the handler returns, if the program is not terminated, leaves as
  -- many open as before, or one more, which is the new socket that the handler moved away; and the
  -- constructor of a server or of a datagram socket leaves one more open if it returns and as many as
  -- before if it throws.
  pub descriptors_kept :
      (p : Protocol) (handle : ℤ) (handler : Option (ℤ → W → Outcome (Unit {0}) × ℤ × W)) (w : W)
      (result : Outcome (Unit {0})) (w' : W)
      → ((f : ℤ → W → Outcome (Unit {0}) × ℤ × W) → handler ≡ some f → Handles count f)
      → Socket.accept k handle handler w ≡ some (result, w')
      → ((count w' ≡ count w) ⊎ (MovedAway handler (k.accept handle w) × (count w' ≡ count w + 1)))
        × (count (Socket.stream_server_socket k p w).1
            ≡ count w + kept (Socket.stream_server_socket k p w).0)
        × (count (Socket.datagram_socket k p w).1 ≡ count w + kept (Socket.datagram_socket k p w).0)
  unfolding Socket.accept Socket.stream_server_socket Socket.basic_stream_socket
      Socket.datagram_socket Posix.accept checked not_null
  descriptors_kept p handle none w result w' h e =
      let same : w ≡ w' = cc in
      (inl (rw (sym same) refl), basic_socket-kept p stream w, basic_socket-kept p datagram w)
  descriptors_kept p handle (some f) w result w' h e = (
    serve-count f (k.accept handle w) w' result (count w) (h f refl) (law.accept_opens handle w) e,
    basic_socket-kept p stream w,
    basic_socket-kept p datagram w,
  )
