-- ===== src/Concurrency/Latch/Threads.antt =====
-- latch.cpp under threads. `count_down` takes no lock: its subtraction, its test and its
-- notification are three steps, and they interleave with a waiter that holds `m_mutex`.
use cmake_template.Base.{
  ℕ, ◌+◌, ◌-◌, ◌≤◌, ◌<◌, ◌≡◌, refl, subst, ◌≢◌, Bool, true, false, if◌then◌else◌, arith, size_mod,
}
use cmake_template.Concurrency.Condition.{Waiters, nobody, sleep, notify_one, notify_all, run_woken}
use cmake_template.Concurrency.Latch.{Latch, new, subtract, try_wait}

-- Who holds `m_mutex`: a waiter before the predicate of `m_condition.wait`, or a waiter whose
-- predicate was false and which is about to sleep.
pub data Holder : Type 0 where
  free entered deciding : Holder

-- `tests` counts the calls of `count_down` between the subtraction and the test, `notifies` those
-- between the test and `notify_all`; `arrived` and `returned` are the history: what all calls have
-- subtracted so far, and how many waits have returned.
pub record System : Type 0 where
  pub latch : Latch
  pub waiters : Waiters
  pub holder : Holder
  pub tests : ℕ
  pub notifies : ℕ
  pub arrived : ℕ
  pub returned : ℕ

abbrev pub init : ℕ → System
init n = record {
  latch = new n;
  waiters = nobody;
  holder = free;
  tests = 0;
  notifies = 0;
  arrived = 0;
  returned = 0;
}

abbrev next_holder : System → Holder → System
next_holder s h =
    if try_wait s.latch
    then record s { holder = free; returned = s.returned + 1 }
    else record s { holder = h }

-- With `careful`, nobody subtracts while a waiter is about to sleep, as if `count_down` took the
-- mutex; latch.cpp is the relation without it.
pub data Step (careful : Bool) (s : System) : System → Type 0 where
  subtracts :
      (n : ℕ)
      → n < size_mod
      → (careful ≡ true → s.holder ≢ deciding)
      → Step careful s
          (record s { latch = subtract n s.latch; tests = s.tests + 1; arrived = s.arrived + n })
  checks :
      0 < s.tests
      → Step careful s (record s {
        tests = s.tests - 1;
        notifies = if try_wait s.latch then s.notifies + 1 else s.notifies;
      })
  notifies_all :
      0 < s.notifies
      → Step careful s (record s { waiters = notify_all s.waiters; notifies = s.notifies - 1 })
  waits : s.holder ≡ free → Step careful s (next_holder s entered)
  decides : s.holder ≡ entered → Step careful s (next_holder s deciding)
  sleeps :
      s.holder ≡ deciding → Step careful s (record s { holder = free; waiters = sleep s.waiters })
  resumes :
      s.holder ≡ free
      → 0 < s.waiters.woken
      → Step careful s (record s { holder = entered; waiters = run_woken s.waiters })
  wakes_spuriously : Step careful s (record s { waiters = notify_one s.waiters })

pub data Reach (careful : Bool) (n : ℕ) : System → Type 0 where
  start : Reach careful n (init n)
  later : {s t : System} → Reach careful n s → Step careful s t → Reach careful n t

record Counted (n : ℕ) (s : System) : Type 0 where
  size : s.latch.expected < size_mod
  left : s.arrived ≤ n → s.latch.expected ≡ n - s.arrived
  early : 0 < s.returned → n ≤ s.arrived

Step-Counted :
    {careful : Bool} (n : ℕ) {s t : System} → Step careful s t → Counted n s → Counted n t
unfolding subtract try_wait
Step-Counted n (subtracts k h c) v = ground arith
Step-Counted n (checks h) v = ground arith
Step-Counted n (notifies_all h) v = ground arith
Step-Counted n (waits h) v = ground arith
Step-Counted n (decides h) v = ground arith
Step-Counted n (sleeps h) v = ground arith
Step-Counted n (resumes h k) v = ground arith
Step-Counted n wakes_spuriously v = ground arith

Reach-Counted :
    {careful : Bool} {n : ℕ} {s : System} → n < size_mod → Reach careful n s → Counted n s
unfolding new
Reach-Counted h start = record {
  size = h;
  left = λ _. omega arith;
  early = λ k. absurd (omega arith);
}
Reach-Counted {n} h (later r st) = Step-Counted n st (Reach-Counted h r)

-- No wait returns early: whatever the interleaving, once a `wait` on a latch made for a
-- `std::size_t` `n` has returned, the calls of `count_down` have subtracted at least `n`.
pub returned_late :
    {careful : Bool} {n : ℕ} {s : System}
    → n < size_mod
    → Reach careful n s
    → 0 < s.returned
    → n ≤ s.arrived
returned_late h r = (Reach-Counted h r).early

record Inv (s : System) : Type 0 where
  pending : 0 < s.waiters.sleeping → s.latch.expected ≡ 0 → 0 < s.tests + s.notifies
  shut : s.holder ≡ deciding → s.latch.expected ≢ 0

Step-Inv : {s t : System} → Step true s t → Inv s → Inv t
unfolding try_wait
Step-Inv (subtracts k h c) v = ground (arith, c refl)
Step-Inv (checks h) v = ground arith
Step-Inv (notifies_all h) v = ground arith
Step-Inv (waits h) v = ground arith
Step-Inv (decides h) v = ground arith
Step-Inv (sleeps h) v = ground arith
Step-Inv (resumes h k) v = ground arith
Step-Inv wakes_spuriously v = ground arith

Reach-Inv : {n : ℕ} {s : System} → Reach true n s → Inv s
Reach-Inv start = record { pending = λ h _. absurd (omega arith); shut = λ h. absurd (cc h) }
Reach-Inv (later r st) = Step-Inv st (Reach-Inv r)

-- If nobody subtracts while a waiter is about to sleep, no wake-up of a latch is lost: in every
-- state so reached, while a thread sleeps and the count is zero, a call of `count_down` has yet to
-- test or to notify.
pub careful_wakes :
    {n : ℕ} {s : System}
    → Reach true n s
    → 0 < s.waiters.sleeping
    → try_wait s.latch ≡ true
    → 0 < s.tests + s.notifies
unfolding try_wait
careful_wakes r h e = ground (arith, (Reach-Inv r).pending h)

-- An open latch, a sleeping waiter, and nobody left to wake it.
pub record IsStuck (s : System) : Type 0 where
  pub is_open : try_wait s.latch ≡ true
  pub asleep : 0 < s.waiters.sleeping
  pub quiet : s.waiters.woken + s.tests + s.notifies ≡ 0

module _ {careful : Bool} (s : System) where
  Step-to : {t u : System} → Step careful s t → t ≡ u → Step careful s u
  Step-to st e = subst (Step careful s) e st

  waits_shut :
      s.holder ≡ free → try_wait s.latch ≡ false → Step careful s (record s { holder = entered })
  waits_shut h e = Step-to (waits h) (rw e)

  decides_shut :
      s.holder ≡ entered
      → try_wait s.latch ≡ false
      → Step careful s (record s { holder = deciding })
  decides_shut h e = Step-to (decides h) (rw e)

  checks_open :
      0 < s.tests
      → try_wait s.latch ≡ true
      → Step careful s (record s { tests = s.tests - 1; notifies = s.notifies + 1 })
  checks_open h e = Step-to (checks h) (rw e)

-- latch.cpp loses wake-ups: for every count `n` above zero there is an interleaving of one `wait`
-- and one `count_down(n)` after which the latch is open, the waiter sleeps, and no notification is
-- outstanding.
pub lost_wakeup : (n : ℕ) → 0 < n → n < size_mod → (s : System) × Reach false n s × IsStuck s
unfolding new subtract try_wait
lost_wakeup n h k = (
  _,
  later
      (later
        (later
          (later
            (later (later start (waits_shut (init n) refl (ground arith)))
              (decides_shut _ refl (ground arith)))
            (subtracts n k (λ e. cc)))
          (checks_open _ (omega arith) (ground arith)))
        (notifies_all (omega arith)))
      (sleeps refl),
  record { is_open = ground arith; asleep = omega arith; quiet = omega arith },
)
