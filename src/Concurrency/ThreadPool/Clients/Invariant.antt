-- ===== src/Concurrency/ThreadPool/Clients/Invariant.antt =====
-- What holds in every state of the pool and its clients.
use cmake_template.Base.{
  ℕ, ◌==◌, ==_iff, Bool-cases, ◌≡◌, ◌≢◌, refl, ap, sym, ◌∙◌, ◌⊎◌, inl, inr, Bool, true, false, List,
  [], ◌∷◌, ◌++◌, Option, none, some, get_elem?, set, length, get_elem?-set_ne, get_elem?-append,
  ℕ_discrete,
}
use cmake_template.Core.Contract.{Outcome}
use cmake_template.Concurrency.Future.{
  FutureResult, SharedState, Stored, result, monostate, failure, Status, is_canceled, get,
}
use cmake_template.Concurrency.Sender.Chain.{Chain}
use cmake_template.Concurrency.ThreadPool.Threads
use cmake_template.Concurrency.ThreadPool.Threads.{Worker, busy, scanning, asleep, Pool}
use cmake_template.Concurrency.ThreadPool.Threads.Future.{Job, waited, other, World, at_first}
use cmake_template.Concurrency.ThreadPool.Clients
use cmake_template.Concurrency.ThreadPool.Clients.{
  Event, canceled, changed, ended, Program, PoolStep, Aside, Reach, works, ends, ends_other, asks,
  cancels, changes, note, nothing, is_end, effect, receiver_of,
}
use cmake_template.Concurrency.ThreadPool.Clients.History.{replay, replay-append}

module _ {ℓ} {A : Type ℓ} where
  -- A worker that is busy is no other.
  set_beside :
      (ws : List (Worker A)) (i k : ℕ) (x y : Worker A) (a : A)
      → get_elem? ws i ≡ some x
      → x ≢ busy a
      → get_elem? ws k ≡ some (busy a)
      → get_elem? (set ws i y) k ≡ some (busy a)
  set_beside ws i k x y a e d f = elim (ℕ_discrete i k) [
    | yes same ↦ absurd (d (let z = rw same at e in cc))
    | no different ↦ get_elem?-set_ne ws i k y different ∙ f
  ]

module _ {W : Type 0} where
  -- Only the end of its task makes a worker let go of it.
  busy-stays :
      {p q : Pool (Job W) (Unit {0})} (st : Threads.Step nothing p q)
      → is_end st ≡ false
      → (k : ℕ) (a : Job W) → get_elem? p.workers k ≡ some (busy a)
      → get_elem? q.workers k ≡ some (busy a)
  busy-stays (Threads.finishes i b f) o k a e = absurd (cc o)
  busy-stays {p} (Threads.enters h) o k a e =
      get_elem?-append p.workers (scanning 0 ∷ []) k (busy a) e
  busy-stays {p} (Threads.tries i n locked s e h f) o k a g =
      set_beside p.workers i k (scanning n) _ a e (λ z. cc) g
  busy-stays {p} (Threads.pops i s e f) o k a g =
      set_beside p.workers i k (scanning (length p.cells)) _ a e (λ z. cc) g
  busy-stays {p} (Threads.wakes i s e f h) o k a g =
      set_beside p.workers i k asleep _ a e (λ z. cc) g
  busy-stays _ o k a e = e

  pub executed-stays :
      {p q : Pool (Job W) (Unit {0})} (st : Threads.Step nothing p q)
      → is_end st ≡ false
      → q.executed ≡ p.executed
  executed-stays (Threads.finishes i b f) o = absurd (cc o)
  executed-stays _ o = refl

pub note-cases :
    (asked : ℕ → Option (ℕ × Bool)) (k : ℕ) (answer : Option (ℕ × Bool)) (j : ℕ) (x : ℕ × Bool)
    → note asked k answer j ≡ some x
    → ((k ≡ j) × (answer ≡ some x)) ⊎ ((k ≢ j) × (asked j ≡ some x))
note-cases asked k answer j x e = elim (Bool-cases (j == k)) [
  | inl same ↦ inl (sym ((==_iff j k).0 same), (let z = rw same at e in z))
  | inr different ↦
      inr ((λ z. let same = (==_iff j k).1 (sym z) in cc), (let z = rw different at e in z))
]

pub noted :
    (asked : ℕ → Option (ℕ × Bool)) (k : ℕ) (answer : Option (ℕ × Bool))
    → note asked k answer k ≡ answer
noted asked k answer = let here = (==_iff k k).1 refl in rw here refl

-- A state that is canceled has an answer.
pub canceled-get :
    {V : Type 0} (t : SharedState V)
    → is_canceled t ≡ true
    → (x : Outcome (FutureResult V)) × ((get (λ v. v) t).0 ≡ some x)
unfolding is_canceled get
canceled-get {V} t h = by_fields t.status t.stored h
  where
    by_fields :
        (a : Status) (b : Stored V)
        → let u : SharedState V = record { status = a; stored = b } in
          is_canceled u ≡ true → (x : Outcome (FutureResult V)) × ((get (λ v. v) u).0 ≡ some x)
    by_fields Status.canceled (result r) k = (_, refl)
    by_fields Status.canceled monostate k = (_, refl)
    by_fields Status.canceled (failure e) k = (_, refl)
    by_fields Status.init b k = absurd (cc k)
    by_fields Status.value b k = absurd (cc k)
    by_fields Status.error b k = absurd (cc k)
    by_fields Status.broken b k = absurd (cc k)

module _ {V W : Type 0} (chains : ℕ → Chain W V) where
  -- The pool goes on as it does without clients.
  abbrev pub pool_step :
      {p q : Program V W} → PoolStep chains p q → Threads.Step nothing p.pool q.pool
  pool_step (works st o) = st
  pool_step (ends k i b e f) = Threads.finishes k (waited i) e
  pool_step (ends_other k f e) = Threads.finishes k (other f) e

  happens-replay :
      (w : W) (e : Event W) (h : List (Event W)) (s : World V W)
      → s ≡ replay chains h (at_first w)
      → effect chains e s ≡ replay chains (h ++ (e ∷ [])) (at_first w)
  happens-replay w e h s same =
      ap (effect chains e) same ∙ sym (replay-append chains h (e ∷ []) (at_first w))

  -- A worker that has asked executes the task for which it has.
  abbrev pub Told : Program V W → Type 0
  Told p =
      (k i : ℕ) (b : Bool)
      → p.asked k ≡ some (i, b)
      → get_elem? p.pool.workers k ≡ some (busy (waited i))

  released-Told :
      (p : Program V W) (k : ℕ)
      → Told p
      → (j i : ℕ) (b : Bool) → note p.asked k none j ≡ some (i, b)
      → get_elem? (set p.pool.workers k (scanning 0)) j ≡ some (busy (waited i))
  released-Told p k v j i b e = elim (note-cases p.asked k none j (i, b) e) [
    | inl (same, none_some) ↦ absurd (cc none_some)
    | inr (different, before) ↦
        get_elem?-set_ne p.pool.workers k j (scanning 0) different ∙ v j i b before
  ]

  module _ {n : ℕ} {w : W} where
    pub Reach-pool : {p : Program V W} → Reach chains n w p → Threads.Reach nothing n tt p.pool
    Reach-pool Clients.start = Threads.start
    Reach-pool (Clients.later r st) = Threads.later (Reach-pool r) (pool_step st)
    Reach-pool (Clients.beside r (asks k i e f)) = Reach-pool r
    Reach-pool (Clients.beside r (cancels i)) = Reach-pool r
    Reach-pool (Clients.beside r (changes f)) = Reach-pool r

    -- The history accounts for the world.
    pub Reach-replay :
        {p : Program V W} → Reach chains n w p → p.world ≡ replay chains p.history (at_first w)
    Reach-replay Clients.start = refl
    Reach-replay (Clients.later r (works st o)) = Reach-replay r
    Reach-replay (Clients.later {p} r (ends k i b e f)) =
        happens-replay w (ended i b) p.history p.world (Reach-replay r)
    Reach-replay (Clients.later {p} r (ends_other k f e)) =
        happens-replay w (changed f) p.history p.world (Reach-replay r)
    Reach-replay (Clients.beside r (asks k i e f)) = Reach-replay r
    Reach-replay (Clients.beside {p} r (cancels i)) =
        happens-replay w (canceled i) p.history p.world (Reach-replay r)
    Reach-replay (Clients.beside {p} r (changes f)) =
        happens-replay w (changed f) p.history p.world (Reach-replay r)

    pub Reach-Told : {p : Program V W} → Reach chains n w p → Told p
    Reach-Told Clients.start k i b e = absurd (cc e)
    Reach-Told (Clients.later r (works st o)) k i b e =
        busy-stays st o k (waited i) (Reach-Told r k i b e)
    Reach-Told (Clients.later {p} r (ends k j c f g)) h i b e =
        released-Told p k (Reach-Told r) h i b e
    Reach-Told (Clients.later {p} r (ends_other k f g)) h i b e =
        released-Told p k (Reach-Told r) h i b e
    Reach-Told (Clients.beside {p} r (asks k j f g)) h i b e =
        elim (note-cases p.asked k _ h (i, b) e) [
          | inl (same, now) ↦ let z = rw same at f in cc
          | inr (different, before) ↦ Reach-Told r h i b before
        ]
    Reach-Told (Clients.beside r (cancels j)) h i b e = Reach-Told r h i b e
    Reach-Told (Clients.beside r (changes f)) h i b e = Reach-Told r h i b e
