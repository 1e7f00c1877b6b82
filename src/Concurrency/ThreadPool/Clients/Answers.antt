-- ===== src/Concurrency/ThreadPool/Clients/Answers.antt =====
-- What the futures answer, when clients cancel them while the pool runs.
use cmake_template.Base.{
  ℕ, ◌<◌, ◌≤◌, ◌≡◌, refl, ap, ◌∙◌, ◌⊎◌, inl, inr, some, weigh, none, Option-cases, dec_lt, length,
  arith,
}
use cmake_template.Core.Contract.{Outcome, throws, domain_error}
use cmake_template.Concurrency.Promise.{destroy_promise}
use cmake_template.Concurrency.Sender.Wait.{attached}
use cmake_template.Concurrency.Future.{FutureResult, get}
use cmake_template.Concurrency.Sender.Chain.{Chain}
use cmake_template.Concurrency.ThreadPool.Threads.{running, Pool}
use cmake_template.Concurrency.ThreadPool.Threads.Future.{Job, World, at_first, is_waited}
use cmake_template.Concurrency.ThreadPool.Threads.Costs.{steps_left}
use cmake_template.Concurrency.ThreadPool.Threads.Progress
use cmake_template.Concurrency.ThreadPool.Threads.Progress.{threads_stop}
use cmake_template.Concurrency.ThreadPool.Threads.Moves.{rests_or_moves, comes_to_rest}
use cmake_template.Concurrency.ThreadPool.Threads.Rest.{IsQuiet}
use cmake_template.Concurrency.ThreadPool.Threads.Liveness.{executed_at_rest}
use cmake_template.Concurrency.ThreadPool.Clients
use cmake_template.Concurrency.ThreadPool.Clients.{
  Event, note, Program, PoolStep, Aside, Reach, Run, Move, works, ends, ends_other, asks, cancels,
  changes, nothing, is_end, outside,
}
use cmake_template.Concurrency.ThreadPool.Clients.History.{
  replay, decision, get-replay, get-destroyed_replay,
}
use cmake_template.Concurrency.ThreadPool.Clients.Invariant.{Reach-pool, Reach-replay, Reach-Told}
use cmake_template.Concurrency.ThreadPool.Clients.Moves.{Run-pool, pool_moves, Lifted, lift_step}
use cmake_template.Concurrency.ThreadPool.Clients.Settled.{Settles, Reach-Settles}

module _ {V W : Type 0} (chains : ℕ → Chain W V) where
  -- What `get` answers for the call `i` is what the history decides.
  abbrev pub Decides : (moved : V → V) (i : ℕ) (w : W) → Program V W → Type 0
  Decides moved i w q =
      (x : Outcome (FutureResult V)) × ((get moved (q.world.0 i)).0 ≡ some x)
      × (decision chains i q.history (at_first w) ≡ some x)

  module _ {n : ℕ} {w : W} where
    Run-Reach :
        {p q : Program V W} {m : ℕ} → Reach chains n w p → Run chains p m q → Reach chains n w q
    Run-Reach r Clients.stays = r
    Run-Reach r (Clients.goes run st o) = Clients.later (Run-Reach r run) st
    Run-Reach r (Clients.meanwhile run st) = Clients.beside (Run-Reach r run) st

    -- At rest a scheduled task has been executed, and its future is decided.
    decided_at_rest :
        {p q : Program V W} {l : ℕ} (moved : V → V) (i : ℕ)
        → Reach chains n w p
        → p.pool.phase ≡ running
        → 0 < weigh (is_waited i) p.pool.submitted
        → Run chains p l q
        → IsQuiet q.pool
        → Decides moved i w q
    decided_at_rest {q = q} moved i r e given run v =
        let after = Run-Reach r run in
        let pool = Reach-pool chains r in
        let all = executed_at_rest nothing (is_waited i) pool e (Run-pool chains run) v in
        let settled = Reach-Settles chains i after in
        let (x, d) = Settles.executed settled (omega (arith, all, given)) in
        let replayed = Reach-replay chains after in
        (
          x,
          ap (λ (s : World V W). (get moved (s.0 i)).0) replayed
              ∙ get-replay chains moved i q.history (at_first w) refl
              ∙ d,
          d,
        )

    -- The first decision counts, while the pool runs and clients cancel. Chains of senders are given to
    -- a running pool of at least one thread by calls of `wait`, beside other tasks, and clients cancel
    -- futures and change the rest of the program meanwhile. In whatever order the threads, the calls
    -- under way and the clients take their steps, the pool makes at most `steps_left` steps, and what
    -- futures and program have become is the replay of the cancellations and of the ends of tasks in
    -- their order. When no thread, no call under way and no task that has yet to ask whether it is
    -- canceled can go on, `get` answers, for a call whose task has been scheduled, as the first of these
    -- decides that concerns its future: the canceled result if that is a cancellation, and otherwise
    -- what the functions of its chain compute, value or exception, in the program at the end of its
    -- task.
    pub get-decision :
        {p q : Program V W} {l : ℕ} (moved : V → V) (i : ℕ)
        → 0 < n
        → Reach chains n w p
        → p.pool.phase ≡ running
        → 0 < weigh (is_waited i) p.pool.submitted
        → Run chains p l q
        → (l ≤ steps_left (length p.pool.cells) p.pool)
          × (q.world ≡ replay chains q.history (at_first w))
          × (Move chains q ⊎ Decides moved i w q)
    get-decision moved i h r e given run =
        let after = Run-Reach r run in
        (
          threads_stop nothing (Reach-pool chains r) (Run-pool chains run),
          Reach-replay chains after,
          elim (rests_or_moves nothing h (Reach-pool chains after)) [
            | inl v ↦ inr (decided_at_rest moved i r e given run v)
            | inr (_, st, o) ↦ inl (pool_moves chains st (Reach-Told chains after) o)
          ],
        )

    runs_on :
        {p : Program V W} {m : ℕ} {r : Pool (Job W) (Unit {0})}
        → Reach chains n w p
        → Progress.Run nothing p.pool m r
        → Lifted chains p m r
    runs_on reached Progress.stays = (_, _, _, Clients.stays)
    runs_on reached (Progress.goes run st o) =
        let (a, s, h, lifted) = runs_on reached run in
        lift_step chains lifted st (Reach-Told chains (Run-Reach reached lifted)) o

    -- Such an end is reached.
    clients_answered :
        {p : Program V W} (moved : V → V) (i : ℕ)
        → 0 < n
        → Reach chains n w p
        → p.pool.phase ≡ running
        → 0 < weigh (is_waited i) p.pool.submitted
        → (l : ℕ) × (q : Program V W) × Run chains p l q × Decides moved i w q
    clients_answered moved i h r e given =
        let (l, pool, run, v) = comes_to_rest nothing h (Reach-pool chains r) in
        let (a, s, history, lifted) = runs_on r run in
        (l, _, lifted, decided_at_rest moved i r e given lifted v)

    unexecuted :
        {p : Program V W} (i : ℕ)
        → Reach chains n w p
        → decision chains i p.history (at_first w) ≡ none
        → weigh (is_waited i) p.pool.executed ≡ 0
    unexecuted {p} i r undecided = elim (dec_lt 0 (weigh (is_waited i) p.pool.executed)) [
      | yes h ↦ let (x, d) = Settles.executed (Reach-Settles chains i r) h in absurd (cc)
      | no h ↦ omega (arith, h)
    ]

    -- No future is left without an answer. In every state that a pool and clients who cancel futures
    -- reach: if the task of a call of `wait` is destroyed, and its promise with it, then `get` answers.
    -- Where the history decides the future, it answers so; otherwise the task has not been executed,
    -- and the answer is the exception `broken promise`.
    pub get-destroyed_decision :
        {p : Program V W} (moved : V → V) (i : ℕ)
        → Reach chains n w p
        → ((x : Outcome (FutureResult V)) × (decision chains i p.history (at_first w) ≡ some x)
            × ((get moved (destroy_promise attached (p.world.0 i))).0 ≡ some x))
          ⊎ ((decision chains i p.history (at_first w) ≡ none)
              × (weigh (is_waited i) p.pool.executed ≡ 0)
              × ((get moved (destroy_promise attached (p.world.0 i))).0
                  ≡ some (throws (domain_error "broken promise"))))
    get-destroyed_decision {p} moved i r =
        let answer =
          ap (λ (s : World V W). (get moved (destroy_promise attached (s.0 i))).0)
            (Reach-replay chains r)
          ∙ get-destroyed_replay chains moved i p.history (at_first w) refl in
        elim (Option-cases (decision chains i p.history (at_first w))) [
          | inl undecided ↦ inr (undecided, unexecuted i r undecided, rw undecided at answer)
          | inr (x, d) ↦ inl (x, d, rw d at answer)
        ]
