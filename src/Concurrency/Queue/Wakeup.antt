-- ===== src/Concurrency/Queue/Wakeup.antt =====
-- queue.hpp under threads: any number of callers interleave their critical sections and their
-- notifications, which come after the lock is released.
use cmake_template.Base.{
  ℕ, ◌+◌, ◌-◌, ◌≤◌, ◌<◌, ◌≡◌, refl, Bool, true, false, List, [], ◌∷◌, inl, inr, Bool-cases, arith,
  length, length-append,
}
use cmake_template.Concurrency.Condition.{Waiters, nobody, sleep, notify_one, notify_all, run_woken}
use cmake_template.Concurrency.Queue.{
  Queue, Reply, waits, new, pop, resume_pop, try_pop, push, try_push, clear,
}

-- `ones` and `alls` count the callers that have left the critical section of a push or of `clear`
-- and have not made their `notify_one` or `notify_all` yet.
pub record System {ℓ} (A : Type ℓ) : Type ℓ where
  pub queue : Queue A
  pub waiters : Waiters
  pub ones : ℕ
  pub alls : ℕ

-- A push that got the lock still has to notify.
abbrev pub announced : ℕ → Bool → ℕ
announced n true = n + 1
announced n false = n

module _ {ℓ} {A : Type ℓ} where
  abbrev pub idle : System A
  unfolding new
  idle = record { queue = new; waiters = nobody; ones = 0; alls = 0 }

  -- A caller whose reply is `waits` goes to sleep as it releases the mutex.
  abbrev pub settle : Waiters → Reply A → Waiters
  settle w waits = sleep w
  settle w _ = w

  unfoldable pub settled : System A → Waiters → Reply A × Queue A → System A
  settled s w (r, q) = record s { queue = q; waiters = settle w r }

  unfoldable pub pushed : System A → Bool × Queue A → System A
  pushed s (done, q) = record s { queue = q; ones = announced s.ones done }

  pub data Step (s : System A) : System A → Type ℓ where
    pops : Step s (settled s s.waiters (pop s.queue))
    resumes : 0 < s.waiters.woken → Step s (settled s (run_woken s.waiters) (resume_pop s.queue))
    wakes_spuriously : Step s (record s { waiters = notify_one s.waiters })
    try_pops : (locked : Bool) → Step s (record s { queue = (try_pop locked s.queue).1 })
    pushes : (a : A) → Step s (record s { queue = push a s.queue; ones = s.ones + 1 })
    try_pushes : (locked : Bool) (a : A) → Step s (pushed s (try_push locked a s.queue))
    notifies : 0 < s.ones → Step s (record s { waiters = notify_one s.waiters; ones = s.ones - 1 })
    clears : Step s (record s { queue = clear s.queue; alls = s.alls + 1 })
    notifies_all :
        0 < s.alls → Step s (record s { waiters = notify_all s.waiters; alls = s.alls - 1 })

  pub data Reach : System A → Type ℓ where
    start : Reach idle
    later : {s t : System A} → Reach s → Step s t → Reach t

  -- While a thread sleeps, every item has a wake-up on its way, and so has the cancellation.
  pub record Inv (s : System A) : Type 0 where
    pub served :
        0 < s.waiters.sleeping
        → s.queue.is_cancelled ≡ false
        → length s.queue.container ≤ s.waiters.woken + s.ones
    pub told : 0 < s.waiters.sleeping → s.queue.is_cancelled ≡ true → 0 < s.alls

  pops-Inv :
      (q : Queue A) (xs : List A) (s : System A)
      → q.container ≡ xs
      → s.queue ≡ q
      → Inv s
      → Inv (settled s s.waiters (pop q))
  unfolding pop settled
  pops-Inv q [] s e f v = ground arith
  pops-Inv q (x ∷ xs) s e f v = ground arith

  resumes-Inv :
      (q : Queue A) (xs : List A) (s : System A)
      → q.container ≡ xs
      → s.queue ≡ q
      → 0 < s.waiters.woken
      → Inv s
      → Inv (settled s (run_woken s.waiters) (resume_pop q))
  unfolding resume_pop settled
  resumes-Inv q [] s e f h v = ground arith
  resumes-Inv q (x ∷ xs) s e f h v = ground arith

  try_pops-Inv :
      (locked : Bool) (q : Queue A) (xs : List A) (s : System A)
      → q.container ≡ xs
      → s.queue ≡ q
      → Inv s
      → Inv (record s { queue = (try_pop locked q).1 })
  unfolding try_pop
  try_pops-Inv locked q [] s e f v = ground arith
  try_pops-Inv locked q (x ∷ xs) s e f v = ground arith

  Step-Inv : {s t : System A} → Step s t → Inv s → Inv t
  unfolding push try_push clear pushed
  Step-Inv {s} pops v = pops-Inv s.queue s.queue.container s refl refl v
  Step-Inv {s} (resumes h) v = resumes-Inv s.queue s.queue.container s refl refl h v
  Step-Inv wakes_spuriously v = ground arith
  Step-Inv {s} (try_pops locked) v = try_pops-Inv locked s.queue s.queue.container s refl refl v
  Step-Inv {s} (pushes a) v = ground (arith, length-append s.queue.container (a ∷ []))
  Step-Inv {s} (try_pushes locked a) v = ground (arith, length-append s.queue.container (a ∷ []))
  Step-Inv (notifies h) v = ground arith
  Step-Inv clears v = ground arith
  Step-Inv (notifies_all h) v = ground arith

  Reach-Inv : {s : System A} → Reach s → Inv s
  unfolding idle
  Reach-Inv start = record {
    served = λ h _. absurd (omega arith);
    told = λ h _. absurd (omega arith);
  }
  Reach-Inv (later r st) = Step-Inv st (Reach-Inv r)

  empty_of_length : (xs : List A) → length xs ≤ 0 → xs ≡ []
  empty_of_length [] h = refl
  empty_of_length (x ∷ xs) h = absurd (omega arith)

  -- No wake-up is lost. In every state that any interleaving of callers reaches: if a thread still
  -- sleeps in `pop` although no notification is outstanding and no woken thread has yet to run,
  -- then the queue is empty and has not been cancelled.
  pub no_lost_wakeup :
      {s : System A}
      → Reach s
      → 0 < s.waiters.sleeping
      → s.waiters.woken ≡ 0
      → s.ones ≡ 0
      → s.alls ≡ 0
      → (s.queue.container ≡ []) × (s.queue.is_cancelled ≡ false)
  no_lost_wakeup {s} r asleep w o a = elim (Bool-cases s.queue.is_cancelled) [
    | inl e ↦ absurd (omega (arith, told asleep e))
    | inr e ↦ (empty_of_length s.queue.container (omega (arith, served asleep e)), e)
  ]
    where
      open (Reach-Inv r) use {served, told}
