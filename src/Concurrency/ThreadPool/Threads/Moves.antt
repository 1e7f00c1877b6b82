-- ===== src/Concurrency/ThreadPool/Threads/Moves.antt =====
-- A pool that is not at rest goes on, and so comes to rest.
use cmake_template.Base.{
  ℕ, zero, suc, ◌+◌, ◌*◌, ◌%◌, ◌<◌, ◌≡◌, refl, ap, ◌∙◌, ◌⊎◌, inl, inr, true, false, dec_lt,
  get_elem?, get_elem?-of_lt, all_or_one, length, Option, some, none, add_uint, arith,
}
use native.Mathlib.Nat.{mod-lt}
use cmake_template.Concurrency.Queue.Wakeup.{System}
use cmake_template.Concurrency.ThreadPool.Threads
use cmake_template.Concurrency.ThreadPool.Threads.{
  Worker, scanning, asleep, exited, busy, Call, Phase, constructing, running, closing, Pool, Step,
  Reach,
}
use cmake_template.Concurrency.ThreadPool.Threads.Cells.{length-cells}
use cmake_template.Concurrency.ThreadPool.Threads.Sleepers.{
  Reach-Staffed, Reach-Seated, own_queue, sleeper,
}
use cmake_template.Concurrency.ThreadPool.Threads.Loops.{Bounded, Reach-Bounded}
use cmake_template.Concurrency.ThreadPool.Threads.Phases.{cleared}
use cmake_template.Concurrency.ThreadPool.Threads.Costs.{from_outside, steps_left}
use cmake_template.Concurrency.ThreadPool.Threads.Progress.{
  Run, stays, goes, Run-Reach, threads_stop,
}
use cmake_template.Concurrency.ThreadPool.Threads.Rest.{Settled, IsQuiet}

module _ {ℓ} {A : Type ℓ} where
  abbrev IsIdle : Worker A → Type ℓ
  IsIdle x = (x ≡ asleep) ⊎ (x ≡ exited)

  abbrev IsActive : Worker A → Type ℓ
  IsActive x = ((n : ℕ) × (x ≡ scanning n)) ⊎ ((a : A) × (x ≡ busy a))

  worker_kind : (x : Worker A) → IsIdle x ⊎ IsActive x
  worker_kind (scanning n) = inr (inl (n, refl))
  worker_kind (busy a) = inr (inr (a, refl))
  worker_kind asleep = inl (inl refl)
  worker_kind exited = inl (inr refl)

  call_kind : (x : Option (Call A)) → (x ≡ none) ⊎ ((call : Call A) × (x ≡ some call))
  call_kind none = inl refl
  call_kind (some call) = inr (call, refl)

  abbrev IsSilent : System A → Type 0
  IsSilent s = (s.waiters.woken ≡ 0) × (s.ones ≡ 0) × (s.alls ≡ 0)

  abbrev IsLoud : System A → Type 0
  IsLoud s = (0 < s.waiters.woken) ⊎ (0 < s.ones) ⊎ (0 < s.alls)

  cell_kind : (s : System A) → IsSilent s ⊎ IsLoud s
  cell_kind s = elim (dec_lt 0 s.waiters.woken) [
    | yes h ↦ inr (inl h)
    | no h ↦ elim (dec_lt 0 s.ones) [
      | yes k ↦ inr (inr (inl k))
      | no k ↦ elim (dec_lt 0 s.alls) [
        | yes l ↦ inr (inr (inr l))
        | no l ↦ inl (omega (arith, h, k, l))
      ]
    ]
  ]

  asleep_of_sleeper : (x : Option (Worker A)) → 0 < sleeper x → x ≡ some asleep
  asleep_of_sleeper none h = absurd (omega (arith, h))
  asleep_of_sleeper (some asleep) h = refl
  asleep_of_sleeper (some exited) h = absurd (omega (arith, h))
  asleep_of_sleeper (some (busy a)) h = absurd (omega (arith, h))
  asleep_of_sleeper (some (scanning n)) h = absurd (omega (arith, h))

module _ {ℓ} {A S : Type ℓ} (exec : A → S → S) where
  -- A step that is not from outside.
  abbrev pub Move : Pool A S → Type ℓ
  Move p = (q : Pool A S) × (st : Step exec p q) × (from_outside st ≡ false)

  module _ {n : ℕ} {world : S} where
    -- Any index modulo the number of queues is the place of a queue.
    queue_at :
        {p : Pool A S} (i : ℕ)
        → 0 < n
        → Reach exec n world p
        → (s : System A) × (get_elem? p.cells (i % length p.cells) ≡ some s)
    queue_at {p} i h r =
        get_elem?-of_lt p.cells (i % length p.cells)
          (mod-lt i (omega (arith, h, length-cells exec r)))

    active_moves :
        {p : Pool A S} (i : ℕ) (x : Worker A)
        → 0 < n
        → Reach exec n world p
        → get_elem? p.workers i ≡ some x
        → IsActive x
        → Move p
    active_moves {p} i x h r e (inr (a, f)) = (_, Threads.finishes i a (e ∙ ap some f), refl)
    active_moves {p} i x h r e (inl (m, f)) =
        let here = e ∙ ap some f in
        let bound = Bounded.trying (Reach-Bounded exec r) i (scanning m) here in
        elim (dec_lt m (length p.cells)) [
          | yes k ↦
              let (s, g) = queue_at {p = p} (add_uint i m) h r in
              (_, Threads.tries i m true s here k g, refl)
          | no k ↦
              let (s, g) = queue_at {p = p} i h r in
              let last : m ≡ length p.cells = omega (arith, bound, k) in
              (_, Threads.pops i s (rw last at here) g, refl)
        ]

    call_moves :
        {p : Pool A S} (j : ℕ) (call : Call A)
        → 0 < n
        → Reach exec n world p
        → get_elem? p.calls j ≡ some (some call)
        → Move p
    call_moves {p} j call h r e =
        let bound = Bounded.calling (Reach-Bounded exec r) j (some call) e in
        elim (dec_lt call.tries (length p.cells * 4)) [
          | yes k ↦
              let (s, g) = queue_at {p = p} (add_uint call.index call.tries) h r in
              (_, Threads.try_pushes j call true s e k g, refl)
          | no k ↦
              let (s, g) = queue_at {p = p} call.index h r in
              (_, Threads.pushes j call s e (omega (arith, bound, k)) g, refl)
        ]

    loud_moves :
        {p : Pool A S} (c : ℕ) (s : System A)
        → Reach exec n world p
        → get_elem? p.cells c ≡ some s
        → IsLoud s
        → Move p
    loud_moves {p} c s r e (inl h) =
        let here =
          asleep_of_sleeper (get_elem? p.workers c) (omega (arith, Reach-Seated exec r c s e, h)) in
        let own = own_queue exec p c asleep (Reach-Staffed exec r) here in
        (_, Threads.wakes c s here (rw own e) h, refl)
    loud_moves {p} c s r e (inr (inl h)) = (_, Threads.notifies c s e h, refl)
    loud_moves {p} c s r e (inr (inr h)) = (_, Threads.notifies_all c s e h, refl)

    phase_moves :
        {p : Pool A S} (phase : Phase)
        → Reach exec n world p
        → p.phase ≡ phase
        → Settled (length p.cells) p.phase ⊎ Move p
    phase_moves running r e = inl (inl e)
    phase_moves {p} constructing r e = elim (dec_lt p.spawned (length p.cells)) [
      | yes h ↦ inr (_, Threads.spawns e h, refl)
      | no h ↦ inr (_, Threads.constructs e (omega (arith, Reach-Staffed exec r, h)), refl)
    ]
    phase_moves {p} (closing c) r e = elim (dec_lt c (length p.cells)) [
      | yes h ↦ let (s, g) = get_elem?-of_lt p.cells c h in inr (_, Threads.clears c s e g, refl)
      | no h ↦
          let bound = Bounded.clearing (Reach-Bounded exec r) in
          let same : cleared p.phase ≡ c = rw e refl in
          let last : c ≡ length p.cells = omega (arith, bound, same, h) in
          inl (inr (e ∙ ap closing last))
    ]

    -- Either the pool is at rest, or one of its threads, the constructor, the destructor or a call
    -- under way can go on.
    pub rests_or_moves : {p : Pool A S} → 0 < n → Reach exec n world p → IsQuiet p ⊎ Move p
    rests_or_moves {p} h r = elim (phase_moves p.phase r refl) [
      | inr m ↦ inr m
      | inl settled ↦ elim (dec_lt (length p.workers) p.spawned) [
        | yes k ↦ inr (_, Threads.enters k, refl)
        | no k ↦ elim (all_or_one worker_kind p.workers) [
          | inr (i, x, e, z) ↦ inr (active_moves i x h r e z)
          | inl resting ↦ elim (all_or_one call_kind p.calls) [
            | inr (j, x, e, (call, z)) ↦ inr (call_moves j call h r (e ∙ ap some z))
            | inl returned ↦ elim (all_or_one cell_kind p.cells) [
              | inr (c, s, e, z) ↦ inr (loud_moves c s r e z)
              | inl delivered ↦ inl (record {
                settled = settled;
                entered = omega (arith, Reach-Staffed exec r, k);
                resting = resting;
                returned = returned;
                delivered = delivered;
              })
            ]
          ]
        ]
      ]
    ]

    rest_within :
        (fuel : ℕ) {p q : Pool A S} {m : ℕ}
        → 0 < n
        → Reach exec n world p
        → Run exec p m q
        → steps_left (length p.cells) p < fuel + m
        → (l : ℕ) × (t : Pool A S) × Run exec p l t × IsQuiet t
    rest_within zero h r run k = absurd (omega (arith, k, threads_stop exec r run))
    rest_within (suc fuel) {p} {q} {m} h r run k = elim (rests_or_moves h (Run-Reach exec r run)) [
      | inl v ↦ (m, q, run, v)
      | inr (t, st, o) ↦ rest_within fuel h r (goes run st o) (omega (arith, k))
    ]

    -- From every state that a pool of at least one thread reaches, its threads and the calls under
    -- way come to rest.
    pub comes_to_rest :
        {p : Pool A S}
        → 0 < n
        → Reach exec n world p
        → (m : ℕ) × (q : Pool A S) × Run exec p m q × IsQuiet q
    comes_to_rest {p} h r = rest_within (steps_left (length p.cells) p + 1) h r stays (omega arith)
