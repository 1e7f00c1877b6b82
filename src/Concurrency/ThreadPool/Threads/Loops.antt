-- ===== src/Concurrency/ThreadPool/Threads/Loops.antt =====
-- The loops of `scheduled`, of `schedule` and of `clear` stay within their bounds.
use cmake_template.Base.{
  ℕ, ◌*◌, ◌<◌, ◌≤◌, ◌≡◌, refl, Bool, true, false, get_elem?, get_elem?-set_all,
  get_elem?-append_all, set, length, length_of_get_elem?, Option, some, none, arith,
}
use cmake_template.Concurrency.Queue.{item, nullopt, waits, fault, Reply}
use cmake_template.Concurrency.ThreadPool.Threads
use cmake_template.Concurrency.ThreadPool.Threads.{
  Worker, scanning, asleep, exited, busy, Call, Phase, constructing, running, closing, Pool, Step,
  Reach, after_try, after_pop, after_push,
}
use cmake_template.Concurrency.ThreadPool.Threads.Cells.{length-cells-Step}
use cmake_template.Concurrency.ThreadPool.Threads.Phases.{cleared}

module _ {ℓ} {A : Type ℓ} where
  abbrev pub IsTrying : ℕ → Worker A → Type 0
  IsTrying k (scanning n) = n ≤ k
  IsTrying k _ = Unit

  abbrev pub IsCalling : ℕ → Option (Call A) → Type 0
  IsCalling k none = Unit
  IsCalling k (some call) = call.tries ≤ k * 4

  after_try-IsTrying : (k n : ℕ) (r : Reply A) → n < k → IsTrying k (after_try n r)
  after_try-IsTrying k n (item a) h = tt
  after_try-IsTrying k n nullopt h = omega (arith, h)
  after_try-IsTrying k n waits h = omega (arith, h)
  after_try-IsTrying k n fault h = omega (arith, h)

  after_pop-IsTrying : (k : ℕ) (r : Reply A) → IsTrying k (after_pop r)
  after_pop-IsTrying k (item a) = tt
  after_pop-IsTrying k nullopt = tt
  after_pop-IsTrying k waits = tt
  after_pop-IsTrying k fault = tt

  after_push-IsCalling :
      (k : ℕ) (call : Call A) (done : Bool)
      → call.tries < k * 4
      → IsCalling k (after_push call done)
  after_push-IsCalling k call true h = tt
  after_push-IsCalling k call false h = omega (arith, h)

module _ {ℓ} {A S : Type ℓ} (exec : A → S → S) where
  pub record Bounded (k : ℕ) (p : Pool A S) : Type ℓ where
    pub trying : (i : ℕ) (x : Worker A) → get_elem? p.workers i ≡ some x → IsTrying k x
    pub calling : (j : ℕ) (x : Option (Call A)) → get_elem? p.calls j ≡ some x → IsCalling k x
    pub clearing : cleared p.phase ≤ k

  worker_moves :
      {k : ℕ} {p q : Pool A S} (i : ℕ) (x : Worker A)
      → q.workers ≡ set p.workers i x
      → q.calls ≡ p.calls
      → q.phase ≡ p.phase
      → IsTrying k x
      → Bounded k p
      → Bounded k q
  worker_moves {k} {p} i x e f g h b = record {
    trying = rw e (get_elem?-set_all (λ _. IsTrying k) p.workers i x (Bounded.trying b) h);
    calling = rw f (Bounded.calling b);
    clearing = rw g (Bounded.clearing b);
  }

  call_moves :
      {k : ℕ} {p q : Pool A S} (j : ℕ) (x : Option (Call A))
      → q.workers ≡ p.workers
      → q.calls ≡ set p.calls j x
      → q.phase ≡ p.phase
      → IsCalling k x
      → Bounded k p
      → Bounded k q
  call_moves {k} {p} j x e f g h b = record {
    trying = rw e (Bounded.trying b);
    calling = rw f (get_elem?-set_all (λ _. IsCalling k) p.calls j x (Bounded.calling b) h);
    clearing = rw g (Bounded.clearing b);
  }

  other_moves :
      {k : ℕ} {p q : Pool A S}
      → q.workers ≡ p.workers
      → q.calls ≡ p.calls
      → cleared q.phase ≤ k
      → Bounded k p
      → Bounded k q
  other_moves e f g b = record {
    trying = rw e (Bounded.trying b);
    calling = rw f (Bounded.calling b);
    clearing = g;
  }

  Step-Bounded :
      {p q : Pool A S} → Step exec p q → Bounded (length p.cells) p → Bounded (length p.cells) q
  Step-Bounded (Threads.spawns f k) b = other_moves refl refl (Bounded.clearing b) b
  Step-Bounded (Threads.spawn_fails f k) b = other_moves refl refl (omega arith) b
  Step-Bounded (Threads.constructs f k) b = other_moves refl refl (omega arith) b
  Step-Bounded {p} (Threads.enters k) b = record {
    trying =
        get_elem?-append_all (IsTrying (length p.cells)) p.workers (scanning 0) (Bounded.trying b)
          (omega arith);
    calling = Bounded.calling b;
    clearing = Bounded.clearing b;
  }
  Step-Bounded {p} (Threads.tries i n locked s e k f) b =
      worker_moves i _ refl refl refl (after_try-IsTrying (length p.cells) n _ k) b
  Step-Bounded {p} (Threads.pops i s e f) b =
      worker_moves i _ refl refl refl (after_pop-IsTrying (length p.cells) _) b
  Step-Bounded {p} (Threads.wakes i s e f k) b =
      worker_moves i _ refl refl refl (after_pop-IsTrying (length p.cells) _) b
  Step-Bounded (Threads.finishes i a e) b =
      worker_moves i (scanning 0) refl refl refl (omega arith) b
  Step-Bounded {p} (Threads.begins a) b = record {
    trying = Bounded.trying b;
    calling =
        get_elem?-append_all (IsCalling (length p.cells)) p.calls _ (Bounded.calling b)
          (omega arith);
    clearing = Bounded.clearing b;
  }
  Step-Bounded {p} (Threads.try_pushes j call locked s e k f) b =
      call_moves j _ refl refl refl (after_push-IsCalling (length p.cells) call _ k) b
  Step-Bounded (Threads.pushes j call s e k f) b = call_moves j none refl refl refl tt b
  Step-Bounded (Threads.notifies c s e k) b = other_moves refl refl (Bounded.clearing b) b
  Step-Bounded (Threads.notifies_all c s e k) b = other_moves refl refl (Bounded.clearing b) b
  Step-Bounded (Threads.wakes_spuriously c s e) b = other_moves refl refl (Bounded.clearing b) b
  Step-Bounded (Threads.destroys f) b = other_moves refl refl (omega arith) b
  Step-Bounded {p} (Threads.clears c s f e) b =
      other_moves refl refl (omega (arith, length_of_get_elem? p.cells c s e)) b

  module _ {n : ℕ} {world : S} where
    pub Reach-Bounded : {p : Pool A S} → Reach exec n world p → Bounded (length p.cells) p
    unfolding Threads.begin
    Reach-Bounded Threads.start = record {
      trying = λ i x e. absurd (cc e);
      calling = λ j x e. absurd (cc e);
      clearing = omega arith;
    }
    Reach-Bounded (Threads.later r st) =
        rw (length-cells-Step exec st) (Step-Bounded st (Reach-Bounded r))
