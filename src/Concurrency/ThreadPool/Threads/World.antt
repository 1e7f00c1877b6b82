-- ===== src/Concurrency/ThreadPool/Threads/World.antt =====
-- What the tasks of the pool have done.
use cmake_template.Base.{◌≡◌, refl, sym, ap, ◌∙◌, ℕ, List, [], ◌∷◌, ◌++◌}
use cmake_template.Concurrency.ThreadPool.Threads
use cmake_template.Concurrency.ThreadPool.Threads.{Pool, Step, Reach}

module _ {ℓ} {A S : Type ℓ} (exec : A → S → S) where
  -- Tasks executed in a row.
  abbrev pub exec_all : List A → S → S
  exec_all [] s = s
  exec_all (a ∷ done) s = exec_all done (exec a s)

  pub exec_all-append :
      (done more : List A) (s : S) → exec_all (done ++ more) s ≡ exec_all more (exec_all done s)
  exec_all-append [] more s = refl
  exec_all-append (a ∷ done) more s = exec_all-append done more (exec a s)

  Step-world :
      (world : S) {p q : Pool A S}
      → Step exec p q
      → p.world ≡ exec_all p.executed world
      → q.world ≡ exec_all q.executed world
  Step-world world {p} (Threads.finishes i a f) e =
      ap (exec a) e ∙ sym (exec_all-append p.executed (a ∷ []) world)
  Step-world world _ e = e

  module _ {n : ℕ} {world : S} where
    -- The tasks executed, in the order in which they finish, account for all that has changed.
    pub world-Reach : {p : Pool A S} → Reach exec n world p → p.world ≡ exec_all p.executed world
    unfolding Threads.begin
    world-Reach Threads.start = refl
    world-Reach (Threads.later r st) = Step-world world st (world-Reach r)
