-- ===== src/System/Posix/Flags.antt =====
-- socket.cpp: the non-blocking mode is a bit of the descriptor's flags.
use Prim.Native.Nat.{bit_and}
use cmake_template.Base.{
  ℕ, ℤ, pos, ==_iff, Option, none, some, ◌==◌, ◌≡◌, refl, ap, ◌∙◌, ◌≢◌, Bool, true, false,
  Bool-cases, inl, inr, List, [], ◌∷◌, if◌then◌else◌, arith,
}
use cmake_template.Base.Bits.{bit_and-bit_or, bit_and-clear}
use cmake_template.Core.Contract.{ok, no_system_error, is_system_error}
use cmake_template.System.Kernel.{Kernel, Io, pure, and_then, ◌>>◌}
use cmake_template.System.Posix
use cmake_template.System.Posix.{new_flags}

module _ {W : Type 0} (k : Kernel W) where
  new_flags-bit :
      (mode : Bool) (flags : ℕ)
      → k.o_nonblock ≢ 0
      → (bit_and (new_flags k mode flags) k.o_nonblock == k.o_nonblock) ≡ mode
  new_flags-bit true flags n = ground (arith, bit_and-bit_or flags k.o_nonblock)
  new_flags-bit false flags n = ground (arith, bit_and-clear flags k.o_nonblock)

  -- The non-blocking mode survives the round trip. Where the system reads the flags `old`, accepts the
  -- new flags, and then reads back flags that agree with them on O_NONBLOCK, `non_blocking(mode)`
  -- returns, and `is_non_blocking` after it answers `mode`, whatever the mode was before.
  is_non_blocking-non_blocking :
      (handle : ℤ) (mode : Bool) (old r back : ℕ) (w w₁ w₂ w₃ : W)
      → k.o_nonblock ≢ 0
      → k.get_flags handle w ≡ (pos old, w₁)
      → k.set_flags handle (new_flags k mode old) w₁ ≡ (pos r, w₂)
      → k.get_flags handle w₂ ≡ (pos back, w₃)
      → bit_and back k.o_nonblock ≡ bit_and (new_flags k mode old) k.o_nonblock
      → (Posix.non_blocking k handle mode w ≡ (ok tt, w₂))
        × (Posix.is_non_blocking k handle w₂ ≡ (ok mode, w₃))
  unfolding Posix.non_blocking Posix.is_non_blocking Posix.get_descriptor_flags Posix.checked
      no_system_error is_system_error
  is_non_blocking-non_blocking handle mode old r back w w₁ w₂ w₃ n reads sets reads_back agrees =
      (rw reads (rw sets refl), rw reads_back (rw agrees (rw (new_flags-bit mode old n) refl)))

-- Whether a descriptor is one of an open file description.
abbrev same_file : Option ℕ → ℕ → Bool
same_file none d = false
same_file (some e) d = d == e

-- What POSIX says of `fcntl`, as far as the mode goes. `files` is the table of a process: the open file
-- description behind each open descriptor, which duplicates of a descriptor share; the flags belong to
-- the description. F_GETFL and F_SETFL work on open descriptors. F_SETFL of flags that differ from
-- those read in O_NONBLOCK alone sets O_NONBLOCK, keeps the flags of other descriptions, and opens and
-- closes nothing.
pub record SetsFlags {W : Type 0} (k : Kernel W) (files : W → ℤ → Option ℕ) (flags : ℕ → W → ℕ)
    : Type 0 where
  pub is_bit : k.o_nonblock ≢ 0
  pub reads : (h : ℤ) (d : ℕ) (w : W) → files w h ≡ some d → k.get_flags h w ≡ (pos (flags d w), w)
  pub accepts :
      (h : ℤ) (d : ℕ) (mode : Bool) (w : W)
      → files w h ≡ some d
      → (r : ℕ) × ((k.set_flags h (new_flags k mode (flags d w)) w).0 ≡ pos r)
  pub writes :
      (h : ℤ) (d : ℕ) (mode : Bool) (w : W)
      → files w h ≡ some d
      → bit_and (flags d (k.set_flags h (new_flags k mode (flags d w)) w).1) k.o_nonblock
        ≡ bit_and (new_flags k mode (flags d w)) k.o_nonblock
  pub others :
      (h : ℤ) (d e : ℕ) (mode : Bool) (w : W)
      → files w h ≡ some d
      → (e == d) ≡ false
      → flags e (k.set_flags h (new_flags k mode (flags d w)) w).1 ≡ flags e w
  pub keeps :
      (h : ℤ) (d : ℕ) (mode : Bool) (w : W)
      → files w h ≡ some d
      → files (k.set_flags h (new_flags k mode (flags d w)) w).1 ≡ files w

-- The mode that the last of some calls has set for an open file description, which was in a mode before.
abbrev pub last_mode : (ℤ → Option ℕ) → (file : ℕ) → List (ℤ × Bool) → (before : Bool) → Bool
last_mode files file [] before = before
last_mode files file ((h, mode) ∷ calls) before =
    last_mode files file calls (if same_file (files h) file then mode else before)

-- The calls are on open descriptors.
abbrev pub AllOpen : (ℤ → Option ℕ) → List (ℤ × Bool) → Type 0
AllOpen files [] = Unit
AllOpen files ((h, mode) ∷ calls) = ((d : ℕ) × (files h ≡ some d)) × AllOpen files calls

module _ {W : Type 0} (k : Kernel W) where
  -- Calls of `non_blocking` one after the other.
  abbrev pub set_modes : List (ℤ × Bool) → Io W (Unit {0})
  set_modes [] = pure tt
  set_modes ((handle, mode) ∷ calls) = Posix.non_blocking k handle mode >> set_modes calls

  abbrev pub is_on : (flags : ℕ → W → ℕ) → ℕ → W → Bool
  is_on flags d w = bit_and (flags d w) k.o_nonblock == k.o_nonblock

  module _ (files : W → ℤ → Option ℕ) (flags : ℕ → W → ℕ) (law : SetsFlags k files flags) where
    -- The system after one call.
    abbrev set_one : ℤ → ℕ → Bool → W → W
    set_one h d mode w = (k.set_flags h (new_flags k mode (flags d w)) w).1

    non_blocking-ok :
        (h : ℤ) (d : ℕ) (mode : Bool) (w : W)
        → files w h ≡ some d
        → Posix.non_blocking k h mode w ≡ (ok tt, set_one h d mode w)
    unfolding Posix.non_blocking Posix.get_descriptor_flags Posix.checked no_system_error
        is_system_error
    non_blocking-ok h d mode w f =
        let (r, e) = SetsFlags.accepts law h d mode w f in
        let accepted : k.set_flags h (new_flags k mode (flags d w)) w
            ≡ (pos r, set_one h d mode w) =
          ap (λ x. (x, set_one h d mode w)) e in
        rw (SetsFlags.reads law h d w f) (rw accepted refl)

    set_one-is_on :
        (h : ℤ) (d e : ℕ) (mode : Bool) (w : W)
        → files w h ≡ some d
        → is_on flags e (set_one h d mode w) ≡ (if e == d then mode else is_on flags e w)
    set_one-is_on h d e mode w f = elim (Bool-cases (e == d)) [
      | inl same ↦
          ap (λ z. is_on flags z (set_one h d mode w)) ((==_iff e d).0 same)
          ∙ ap (λ b. b == k.o_nonblock) (SetsFlags.writes law h d mode w f)
          ∙ new_flags-bit k mode (flags d w) (SetsFlags.is_bit law)
          ∙ rw same refl
      | inr different ↦
          ap (λ z. bit_and z k.o_nonblock == k.o_nonblock)
            (SetsFlags.others law h d e mode w f different)
          ∙ rw different refl
    ]

    is_non_blocking-is_on :
        (h : ℤ) (d : ℕ) (w : W)
        → files w h ≡ some d
        → Posix.is_non_blocking k h w ≡ (ok (is_on flags d w), w)
    unfolding Posix.is_non_blocking Posix.get_descriptor_flags Posix.checked no_system_error
        is_system_error
    is_non_blocking-is_on h d w f = rw (SetsFlags.reads law h d w f) refl

    -- The non-blocking mode survives any number of calls. On a system that treats flags as POSIX says:
    -- after any calls of `non_blocking` on open descriptors, all of which return, `is_non_blocking`
    -- answers for each open descriptor the mode that the last call on it, or on a descriptor that
    -- shares its open file description, has set, or the mode in which it was if there was none.
    pub is_non_blocking-set_modes :
        (calls : List (ℤ × Bool)) (h : ℤ) (d : ℕ) (table : ℤ → Option ℕ) (w : W)
        → files w ≡ table
        → AllOpen table calls
        → table h ≡ some d
        → (w' : W) × (set_modes calls w ≡ (ok tt, w'))
          × (Posix.is_non_blocking k h w' ≡ (ok (last_mode table d calls (is_on flags d w)), w'))
    is_non_blocking-set_modes [] h d table w t all f =
        (w, refl, is_non_blocking-is_on h d w (ap (λ z. z h) t ∙ f))
    is_non_blocking-set_modes ((g, mode) ∷ calls) h d table w t ((e, o), all) f =
        let here : files w g ≡ some e = ap (λ z. z g) t ∙ o in
        let (w', returned, answer) =
          is_non_blocking-set_modes calls h d table (set_one g e mode w)
            (SetsFlags.keeps law g e mode w here ∙ t) all f in
        let now : is_on flags d (set_one g e mode w)
            ≡ (if same_file (table g) d then mode else is_on flags d w) =
          set_one-is_on g e d mode w here ∙ rw o refl in
        (
          w',
          ap (λ p. and_then p (λ _. set_modes calls)) (non_blocking-ok g e mode w here) ∙ returned,
          answer ∙ ap (λ b. (ok (last_mode table d calls b), w')) now,
        )
