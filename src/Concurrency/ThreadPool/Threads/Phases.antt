-- ===== src/Concurrency/ThreadPool/Threads/Phases.antt =====
-- What the phases of the pool's life leave behind: which queues are cancelled, which workers have left.
use cmake_template.Base.{
  ℕ, zero, suc, ◌+◌, ◌%◌, ◌<◌, ◌≡◌, refl, sym, ◌≢◌, ◌∙◌, ltb, Bool, true, List, [], ◌∷◌, ◌++◌, some,
  length, get_elem?, set, get_elem?-set_all, get_elem?-replicate, arith,
}
use cmake_template.Concurrency.Queue.{
  new, Queue, Reply, pop, resume_pop, try_pop, push, try_push, clear,
}
use cmake_template.Concurrency.Queue.Wakeup
use cmake_template.Concurrency.Queue.Wakeup.{System, settled, pushed}
use cmake_template.Concurrency.ThreadPool.Threads
use cmake_template.Concurrency.ThreadPool.Threads.{
  Worker, scanning, asleep, exited, busy, Phase, constructing, running, closing, Pool, Step, Reach,
  after_try, after_pop, after_resume,
}
use cmake_template.Concurrency.ThreadPool.Threads.Sleepers.{Staffed, Reach-Staffed, own_queue}

-- How many queues `clear` has cleared.
abbrev pub cleared : Phase → ℕ
cleared constructing = 0
cleared running = 0
cleared (closing c) = c

lt_of_ltb : (a b : ℕ) → ltb a b ≡ true → a < b
lt_of_ltb a b e = ground arith

module _ {ℓ} {A : Type ℓ} where
  abbrev pub Cleared : List (System A) → ℕ → Type ℓ
  Cleared cells k =
      (c : ℕ) (s : System A) → get_elem? cells c ≡ some s → s.queue.is_cancelled ≡ ltb c k

  Cleared-cell :
      (cells : List (System A)) (k c : ℕ) (s t : System A)
      → get_elem? cells c ≡ some s
      → t.queue.is_cancelled ≡ s.queue.is_cancelled
      → Cleared cells k
      → Cleared (set cells c t) k
  Cleared-cell cells k c s t e same h =
      get_elem?-set_all (λ d u. u.queue.is_cancelled ≡ ltb d k) cells c t h (same ∙ h c s e)

  -- The write at the place that is next to be cleared.
  Cleared-next :
      (cells : List (System A)) (k : ℕ) (t : System A)
      → t.queue.is_cancelled ≡ true
      → Cleared cells k
      → Cleared (set cells k t) (k + 1)
  Cleared-next [] k t e h c s f = absurd (cc f)
  Cleared-next (u ∷ cells) zero t e h zero s f = let same : t ≡ s = cc in rw same at e
  Cleared-next (u ∷ cells) zero t e h (suc c) s f = h (suc c) s f ∙ ground arith
  Cleared-next (u ∷ cells) (suc k) t e h zero s f = h 0 s f ∙ ground arith
  Cleared-next (u ∷ cells) (suc k) t e h (suc c) s f =
      Cleared-next cells k t e (λ d x g. h (suc d) x g ∙ ground arith) c s f ∙ ground arith

  -- Only workers whose queues are cleared have left the loop.
  abbrev pub Left : List (Worker A) → ℕ → Type ℓ
  Left ws k = (i : ℕ) (x : Worker A) → get_elem? ws i ≡ some x → x ≡ exited → i < k

  Left-set :
      (ws : List (Worker A)) (k i : ℕ) (y : Worker A)
      → (y ≡ exited → i < k)
      → Left ws k
      → Left (set ws i y) k
  Left-set ws k i y e h = get_elem?-set_all (λ j x. x ≡ exited → j < k) ws i y h e

  Left-enter : (ws : List (Worker A)) (k : ℕ) → Left ws k → Left (ws ++ (scanning 0 ∷ [])) k
  Left-enter [] k h zero x e f = absurd (cc (e, f))
  Left-enter [] k h (suc i) x e f = absurd (cc e)
  Left-enter (w ∷ ws) zero h zero x e f = h 0 x e f
  Left-enter (w ∷ ws) (suc k) h zero x e f = omega arith
  Left-enter (w ∷ ws) zero h (suc i) x e f = absurd (
      omega
        (arith, Left-enter ws zero (λ j y g z. absurd (omega (arith, h (suc j) y g z))) i x e f))
  Left-enter (w ∷ ws) (suc k) h (suc i) x e f =
      omega (arith, Left-enter ws k (λ j y g z. omega (arith, h (suc j) y g z)) i x e f)

  pop-is_cancelled : (q : Queue A) → (pop q).1.is_cancelled ≡ q.is_cancelled
  unfolding pop
  pop-is_cancelled q = ground arith

  resume_pop-is_cancelled : (q : Queue A) → (resume_pop q).1.is_cancelled ≡ q.is_cancelled
  unfolding resume_pop
  resume_pop-is_cancelled q = ground arith

  try_pop-is_cancelled :
      (locked : Bool) (q : Queue A) → (try_pop locked q).1.is_cancelled ≡ q.is_cancelled
  unfolding try_pop
  try_pop-is_cancelled locked q = ground arith

  try_push-is_cancelled :
      (locked : Bool) (a : A) (q : Queue A) → (try_push locked a q).1.is_cancelled ≡ q.is_cancelled
  unfolding try_push
  try_push-is_cancelled locked a q = ground arith

  -- A thread leaves the loop only on a cancelled queue.
  pop-exited : (q : Queue A) → after_pop (pop q).0 ≡ exited → q.is_cancelled ≡ true
  unfolding pop
  pop-exited q e = ground arith

  resume_pop-exited : (q : Queue A) → after_pop (resume_pop q).0 ≡ exited → q.is_cancelled ≡ true
  unfolding resume_pop
  resume_pop-exited q e = ground arith

  after_try-exited : (n : ℕ) (r : Reply A) → after_try n r ≢ exited
  after_try-exited n r e = ground arith

module _ {ℓ} {A S : Type ℓ} (exec : A → S → S) where
  abbrev pub CellsCleared : Pool A S → Type ℓ
  CellsCleared p = Cleared p.cells (cleared p.phase)

  Step-CellsCleared : {p q : Pool A S} → Step exec p q → CellsCleared p → CellsCleared q
  unfolding settled pushed push clear
  Step-CellsCleared (Threads.spawns f k) v = v
  Step-CellsCleared {p} (Threads.spawn_fails f k) v =
      let none_cleared : cleared p.phase ≡ 0 = rw f refl in rw none_cleared at v
  Step-CellsCleared {p} (Threads.constructs f k) v =
      let none_cleared : cleared p.phase ≡ 0 = rw f refl in rw none_cleared at v
  Step-CellsCleared (Threads.enters k) v = v
  Step-CellsCleared {p} (Threads.tries i n locked s e k f) v =
      Cleared-cell p.cells (cleared p.phase) _ s _ f (try_pop-is_cancelled locked s.queue) v
  Step-CellsCleared {p} (Threads.pops i s e f) v =
      Cleared-cell p.cells (cleared p.phase) _ s _ f (pop-is_cancelled s.queue) v
  Step-CellsCleared {p} (Threads.wakes i s e f k) v =
      Cleared-cell p.cells (cleared p.phase) _ s _ f (resume_pop-is_cancelled s.queue) v
  Step-CellsCleared (Threads.finishes i a e) v = v
  Step-CellsCleared (Threads.begins a) v = v
  Step-CellsCleared {p} (Threads.try_pushes j call locked s e k f) v =
      Cleared-cell p.cells (cleared p.phase) _ s _ f
        (try_push-is_cancelled locked call.task s.queue) v
  Step-CellsCleared {p} (Threads.pushes j call s e k f) v =
      Cleared-cell p.cells (cleared p.phase) _ s _ f refl v
  Step-CellsCleared {p} (Threads.notifies c s e k) v =
      Cleared-cell p.cells (cleared p.phase) c s _ e refl v
  Step-CellsCleared {p} (Threads.notifies_all c s e k) v =
      Cleared-cell p.cells (cleared p.phase) c s _ e refl v
  Step-CellsCleared {p} (Threads.wakes_spuriously c s e) v =
      Cleared-cell p.cells (cleared p.phase) c s _ e refl v
  Step-CellsCleared {p} (Threads.destroys f) v =
      let none_cleared : cleared p.phase ≡ 0 = rw f refl in rw none_cleared at v
  Step-CellsCleared {p} (Threads.clears c s f e) v =
      let next : cleared p.phase ≡ c = rw f refl in Cleared-next p.cells c _ refl (rw next at v)

  abbrev pub WorkersLeft : Pool A S → Type ℓ
  WorkersLeft p = Left p.workers (cleared p.phase)

  -- A worker that leaves does so on its own queue, which is cleared.
  leaves :
      (p : Pool A S) (i : ℕ) (x : Worker A) (s : System A)
      → Staffed exec p
      → CellsCleared p
      → get_elem? p.workers i ≡ some x
      → get_elem? p.cells (i % length p.cells) ≡ some s
      → s.queue.is_cancelled ≡ true
      → i < cleared p.phase
  leaves p i x s b v e f c =
      lt_of_ltb i (cleared p.phase) (sym (v i s (rw (own_queue exec p i x b e) at f)) ∙ c)

  Step-WorkersLeft :
      {p q : Pool A S}
      → Step exec p q
      → Staffed exec p
      → CellsCleared p
      → WorkersLeft p
      → WorkersLeft q
  Step-WorkersLeft {p} (Threads.spawn_fails f k) b v l =
      let none_cleared : cleared p.phase ≡ 0 = rw f refl in rw none_cleared at l
  Step-WorkersLeft {p} (Threads.constructs f k) b v l =
      let none_cleared : cleared p.phase ≡ 0 = rw f refl in rw none_cleared at l
  Step-WorkersLeft {p} (Threads.enters k) b v l = Left-enter p.workers (cleared p.phase) l
  Step-WorkersLeft {p} (Threads.tries i n locked s e k f) b v l =
      Left-set p.workers (cleared p.phase) i _ (λ x. absurd (after_try-exited n _ x)) l
  Step-WorkersLeft {p} (Threads.pops i s e f) b v l =
      Left-set p.workers (cleared p.phase) i _ (λ x. leaves p i _ s b v e f (pop-exited s.queue x))
        l
  Step-WorkersLeft {p} (Threads.wakes i s e f k) b v l =
      Left-set p.workers (cleared p.phase) i _
        (λ x. leaves p i _ s b v e f (resume_pop-exited s.queue x)) l
  Step-WorkersLeft {p} (Threads.finishes i a e) b v l =
      Left-set p.workers (cleared p.phase) i (scanning 0) (λ x. absurd (cc x)) l
  Step-WorkersLeft {p} (Threads.destroys f) b v l =
      let none_cleared : cleared p.phase ≡ 0 = rw f refl in rw none_cleared at l
  Step-WorkersLeft {p} (Threads.clears c s f e) b v l =
      let next : cleared p.phase ≡ c = rw f refl in λ i x g z. omega (arith, l i x g z, next)
  Step-WorkersLeft _ b v l = l

  module _ {n : ℕ} {world : S} where
    pub Reach-CellsCleared : {p : Pool A S} → Reach exec n world p → CellsCleared p
    unfolding Threads.begin new
    Reach-CellsCleared Threads.start =
        λ c s e. rw (get_elem?-replicate n Wakeup.idle c s e) (ground arith)
    Reach-CellsCleared (Threads.later r st) = Step-CellsCleared st (Reach-CellsCleared r)

    pub Reach-WorkersLeft : {p : Pool A S} → Reach exec n world p → WorkersLeft p
    unfolding Threads.begin
    Reach-WorkersLeft Threads.start = λ i x e. absurd (cc e)
    Reach-WorkersLeft (Threads.later r st) =
        Step-WorkersLeft st (Reach-Staffed exec r) (Reach-CellsCleared r) (Reach-WorkersLeft r)
