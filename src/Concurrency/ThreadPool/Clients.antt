-- ===== src/Concurrency/ThreadPool/Clients.antt =====
-- wait.hpp, schedule.hpp and future.hpp on the pool, while the clients that hold the futures cancel
-- them: the task of a chain asks once whether its receiver is canceled, and what follows takes effect
-- when it ends. The pool itself is that of `Threads`, whose tasks change nothing; what they change is
-- here.
pub mod History
pub mod Invariant
pub mod Settled
pub mod Moves
pub mod Answers
use cmake_template.Base.{
  ℕ, ◌+◌, ◌==◌, ◌≡◌, Bool, true, false, List, [], ◌∷◌, ◌++◌, Option, none, some, ◌⊎◌, get_elem?,
  set, if◌then◌else◌,
}
use cmake_template.Concurrency.Future.{SharedState, cancel}
use cmake_template.Concurrency.Receiver.{Receiver}
use cmake_template.Concurrency.Receiver.Value.{value_receiver}
use cmake_template.Concurrency.Sender.Chain.{Chain, adapted, complete_task}
use cmake_template.Concurrency.ThreadPool.Threads
use cmake_template.Concurrency.ThreadPool.Threads.{busy, scanning, Pool}
use cmake_template.Concurrency.ThreadPool.Threads.Costs.{from_outside}
use cmake_template.Concurrency.ThreadPool.Threads.Future.{
  Job, waited, other, World, update, at_first,
}

-- What changes the world: a client cancels the future of a call of `wait`; a client or another task
-- changes the rest of the program; or the task of a call of `wait` ends, with what it was told when it
-- asked whether its receiver is canceled.
pub data Event (W : Type 0) : Type 0 where
  canceled : ℕ → Event W
  changed : (W → W) → Event W
  ended : ℕ → (told_canceled : Bool) → Event W

abbrev pub nothing : {W : Type 0} → Job W → Unit {0} → Unit {0}
nothing job u = u

-- `asked k` is the task that worker `k` executes, once that has asked, and the answer.
pub record Program (V W : Type 0) : Type 0 where
  pub pool : Pool (Job W) (Unit {0})
  pub asked : ℕ → Option (ℕ × Bool)
  pub world : World V W
  pub history : List (Event W)

abbrev pub note : (ℕ → Option (ℕ × Bool)) → ℕ → Option (ℕ × Bool) → ℕ → Option (ℕ × Bool)
note asked k answer j = if j == k then answer else asked j

-- The end of a task of a pool.
abbrev pub is_end : {W : Type 0} {p q : Pool (Job W) (Unit {0})} → Threads.Step nothing p q → Bool
is_end (Threads.finishes k a e) = true
is_end _ = false

-- `chains i` is the chain of the call `i` of `wait`.
module _ {V W : Type 0} (chains : ℕ → Chain W V) where
  -- What the task of the call `i` has in place of a receiver.
  abbrev pub receiver_of : ℕ → Receiver (Unit {0}) (SharedState V) W
  receiver_of i = adapted (chains i) (value_receiver V W)

  unfoldable pub effect : Event W → World V W → World V W
  effect (canceled i) (states, w) = (update states i (cancel (states i)).0, w)
  effect (changed f) (states, w) = (states, f w)
  effect (ended i true) s = s
  effect (ended i false) (states, w) =
      let (t, w') = complete_task (receiver_of i) (states i) w in (update states i t, w')

  abbrev pub happens : Event W → Program V W → Program V W
  happens e p = record p { world = effect e p.world; history = p.history ++ (e ∷ []) }

  -- Worker `k` is done with its task `a`.
  abbrev pub released : ℕ → Job W → Program V W → Program V W
  released k a p = record p {
    pool = record p.pool {
      workers = set p.pool.workers k (scanning 0);
      executed = p.pool.executed ++ (a ∷ []);
    };
    asked = note p.asked k none;
  }

  -- The steps of the pool.
  pub data PoolStep (p : Program V W) : Program V W → Type 0 where
    works :
        {q : Pool (Job W) (Unit {0})}
        → (st : Threads.Step nothing p.pool q) → is_end st ≡ false
        → PoolStep p (record p { pool = q })
    ends :
        (k i : ℕ) (told_canceled : Bool)
        → get_elem? p.pool.workers k ≡ some (busy (waited i))
        → p.asked k ≡ some (i, told_canceled)
        → PoolStep p (happens (ended i told_canceled) (released k (waited i) p))
    ends_other :
        (k : ℕ) (f : W → W)
        → get_elem? p.pool.workers k ≡ some (busy (other f))
        → PoolStep p (happens (changed f) (released k (other f) p))

  -- What else happens: a task asks, or a client does something.
  pub data Aside (p : Program V W) : Program V W → Type 0 where
    asks :
        (k i : ℕ)
        → get_elem? p.pool.workers k ≡ some (busy (waited i))
        → p.asked k ≡ none
        → Aside p (record p {
          asked = note p.asked k (some (i, (receiver_of i).is_canceled (p.world.0 i)));
        })
    cancels : (i : ℕ) → Aside p (happens (canceled i) p)
    changes : (f : W → W) → Aside p (happens (changed f) p)

  abbrev pub outside : {p q : Program V W} → PoolStep p q → Bool
  outside (works st k) = from_outside st
  outside _ = false

  module _ (n : ℕ) (w : W) where
    abbrev pub begin : Program V W
    begin = record {
      pool = Threads.begin nothing n tt;
      asked = λ k. none;
      world = at_first w;
      history = [];
    }

    pub data Reach : Program V W → Type 0 where
      start : Reach begin
      later : {p q : Program V W} → Reach p → PoolStep p q → Reach q
      beside : {p q : Program V W} → Reach p → Aside p q → Reach q

  -- A run of the pool's own threads and of the calls under way, of a number of steps, with questions
  -- and clients between them.
  pub data Run (p : Program V W) : ℕ → Program V W → Type 0 where
    stays : Run p 0 p
    goes :
        {m : ℕ} {q r : Program V W}
        → Run p m q
        → (st : PoolStep q r) → outside st ≡ false
        → Run p (m + 1) r
    meanwhile : {m : ℕ} {q r : Program V W} → Run p m q → Aside q r → Run p m r

  -- The pool can go on: one of its threads or of the calls under way, or a task asks.
  abbrev pub Move : Program V W → Type 0
  Move p =
      ((q : Program V W) × (st : PoolStep p q) × (outside st ≡ false))
      ⊎ ((k : ℕ) × (i : ℕ) × (get_elem? p.pool.workers k ≡ some (busy (waited i)))
          × (p.asked k ≡ none))
