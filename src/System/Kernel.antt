-- ===== src/System/Kernel.antt =====
-- The operating system as lib_static calls it: the system calls are a parameter, over an unknown
-- state. A call returns its result, what it writes through its pointers, and the new state.
use cmake_template.Base.{ℕ, ℤ, List}
use cmake_template.Core.Contract.{Outcome, ok, throws}
use cmake_template.System.IpcAddress.{Address}

pub data Direction : Type 0 where
  sending receiving : Direction

pub record Kernel (W : Type 0) : Type 0 where
  pub errno : W → ℕ
  pub o_nonblock : ℕ
  pub msg_nosignal : ℕ
  pub enoent : ℕ
  pub somaxconn : ℕ
  pub socket : (domain type protocol : ℕ) → W → ℤ × W
  pub close : ℤ → W → ℤ × W
  pub get_flags : ℤ → W → ℤ × W  -- fcntl with F_GETFL
  pub set_flags : ℤ → (flags : ℕ) → W → ℤ × W  -- fcntl with F_SETFL
  pub shutdown : ℤ → (how : ℕ) → W → ℤ × W
  pub get_send_buffer : ℤ → W → ℤ × ℕ × W  -- getsockopt with SO_SNDBUF
  pub set_timeout : ℤ → Direction → (seconds : ℕ) → (microseconds : ℤ) → W → ℤ × W  -- setsockopt
  pub listen : ℤ → (backlog : ℤ) → W → ℤ × W
  pub accept : ℤ → W → ℤ × W
  pub bind : ℤ → Address → (address_length : ℕ) → W → ℤ × W
  pub connect : ℤ → Address → (address_length : ℕ) → W → ℤ × W
  pub recv : ℤ → (length flags : ℕ) → W → ℤ × List ℕ × W
  pub send : ℤ → List ℕ → (length flags : ℕ) → W → ℤ × W
  pub recvfrom : ℤ → (length flags address_length : ℕ) → W → ℤ × List ℕ × Address × W
  pub sendto : ℤ → List ℕ → (length flags : ℕ) → Address → (address_length : ℕ) → W → ℤ × W
  pub unlink : List ℕ → W → ℤ × W

-- Code that may throw and that calls the system.
abbrev pub Io : Type 0 → Type 0 → Type 0
Io W A = W → Outcome A × W

module _ {W : Type 0} where
  abbrev pub pure : {A : Type 0} → A → Io W A
  pure a w = (ok a, w)

  abbrev pub lift : {A : Type 0} → Outcome A → Io W A
  lift o w = (o, w)

  abbrev pub and_then : {A B : Type 0} → Outcome A × W → (A → Io W B) → Outcome B × W
  and_then (ok a, w) f = f a w
  and_then (throws e, w) f = (throws e, w)

  infixl 5 ◌>>=◌ ◌>>◌
  abbrev pub ◌>>=◌ : {A B : Type 0} → Io W A → (A → Io W B) → Io W B
  (m >>= f) w = and_then (m w) f

  abbrev pub ◌>>◌ : {B : Type 0} → Io W (Unit {0}) → Io W B → Io W B
  m >> k = m >>= λ _. k
