-- ===== src/Concurrency/RrScheduler/Weights.antt =====
-- rr_scheduler.cpp: the tasks of a vector of queues, weighed. A weight on tasks stands for any way
-- to count them.
use cmake_template.Base.{
  weigh, weigh-append, ℕ, zero, suc, ◌+◌, ◌<◌, ◌≡◌, refl, Bool, true, false, List, [], ◌∷◌, length,
  arith,
}
use cmake_template.Concurrency.Queue.{
  Queue, Reply, push, try_push, item, fault, pop, resume_pop, try_pop,
}
use cmake_template.Concurrency.RrScheduler.Access.{on_queue}

module _ {ℓ} {A : Type ℓ} (w : A → ℕ) where
  abbrev pub weigh_reply : Reply A → ℕ
  weigh_reply (item a) = w a
  weigh_reply _ = 0

  abbrev pub weigh_queues : List (Queue A) → ℕ
  weigh_queues [] = 0
  weigh_queues (q ∷ qs) = weigh w q.container + weigh_queues qs

  pub pop-weight-at :
      (b : Bool) (xs : List A)
      → let (r, q) = pop (record { is_cancelled = b; container = xs }) in
        weigh w q.container + weigh_reply r ≡ weigh w xs
  unfolding pop
  pop-weight-at true [] = refl
  pop-weight-at true (x ∷ xs) = omega arith
  pop-weight-at false [] = refl
  pop-weight-at false (x ∷ xs) = omega arith

  pub try_pop-weight-at :
      (locked b : Bool) (xs : List A)
      → let (r, q) = try_pop locked (record { is_cancelled = b; container = xs }) in
        weigh w q.container + weigh_reply r ≡ weigh w xs
  unfolding try_pop
  try_pop-weight-at locked b [] = refl
  try_pop-weight-at true b (x ∷ xs) = omega arith
  try_pop-weight-at false b (x ∷ xs) = omega arith

  pub resume_pop-weight-at :
      (b : Bool) (xs : List A)
      → let (r, q) = resume_pop (record { is_cancelled = b; container = xs }) in
        weigh w q.container + weigh_reply r ≡ weigh w xs
  unfolding resume_pop
  resume_pop-weight-at true [] = refl
  resume_pop-weight-at true (x ∷ xs) = omega arith
  resume_pop-weight-at false [] = refl
  resume_pop-weight-at false (x ∷ xs) = omega arith

  -- If a call on a queue changes its weight by `c` less what its answer carries, so it is for the
  -- whole vector.
  on_queue-weight {κ} :
      {R : Type κ} (g : R → ℕ) (c : ℕ) (bad : R) (f : Queue A → R × Queue A)
      → ((q : Queue A) → weigh w (f q).1.container + g (f q).0 ≡ weigh w q.container + c)
      → (qs : List (Queue A)) (i : ℕ) → i < length qs
      → let (r, qs') = on_queue bad f qs i in weigh_queues qs' + g r ≡ weigh_queues qs + c
  unfolding on_queue
  on_queue-weight g c bad f h [] i k = absurd (omega arith)
  on_queue-weight g c bad f h (q ∷ qs) zero k = omega (arith, h q)
  on_queue-weight g c bad f h (q ∷ qs) (suc i) k =
      omega (arith, on_queue-weight g c bad f h qs i (omega arith))

  pub try_pop-weight :
      (locked : Bool) (qs : List (Queue A)) (i : ℕ)
      → i < length qs
      → let (r, qs') = on_queue fault (try_pop locked) qs i in
        weigh_queues qs' + weigh_reply r ≡ weigh_queues qs
  try_pop-weight locked qs i h = omega (
    arith,
    on_queue-weight weigh_reply 0 fault (try_pop locked)
        (λ q. omega (arith, try_pop-weight-at locked q.is_cancelled q.container)) qs i h,
  )

  pub pop-weight :
      (qs : List (Queue A)) (i : ℕ)
      → i < length qs
      → let (r, qs') = on_queue fault pop qs i in weigh_queues qs' + weigh_reply r ≡ weigh_queues qs
  pop-weight qs i h = omega (
    arith,
    on_queue-weight weigh_reply 0 fault pop
        (λ q. omega (arith, pop-weight-at q.is_cancelled q.container)) qs i h,
  )

  pub resume_pop-weight :
      (qs : List (Queue A)) (i : ℕ)
      → i < length qs
      → let (r, qs') = on_queue fault resume_pop qs i in
        weigh_queues qs' + weigh_reply r ≡ weigh_queues qs
  resume_pop-weight qs i h = omega (
    arith,
    on_queue-weight weigh_reply 0 fault resume_pop
        (λ q. omega (arith, resume_pop-weight-at q.is_cancelled q.container)) qs i h,
  )

  -- What a push that failed has still to bring in.
  abbrev pub left_over : A → Bool → ℕ
  left_over a true = 0
  left_over a false = w a

  pub try_push-weight-at :
      (locked : Bool) (a : A) (q : Queue A)
      → weigh w (try_push locked a q).1.container + left_over a (try_push locked a q).0
        ≡ weigh w q.container + w a
  unfolding try_push
  try_push-weight-at true a q = omega (arith, weigh-append w q.container (a ∷ []))
  try_push-weight-at false a q = refl

  pub try_push-weight :
      (locked : Bool) (a : A) (qs : List (Queue A)) (i : ℕ)
      → i < length qs
      → let (done, qs') = on_queue false (try_push locked a) qs i in
        weigh_queues qs' + left_over a done ≡ weigh_queues qs + w a
  try_push-weight locked a =
      on_queue-weight (left_over a) (w a) false (try_push locked a) (try_push-weight-at locked a)

  pub push-weight :
      (a : A) (qs : List (Queue A)) (i : ℕ)
      → i < length qs
      → weigh_queues (on_queue false (λ q. (true, push a q)) qs i).1 ≡ weigh_queues qs + w a
  unfolding push
  push-weight a qs i h = omega (
    arith,
    on_queue-weight (λ _. 0) (w a) false (λ q. (true, push a q))
        (λ q. omega (arith, weigh-append w q.container (a ∷ []))) qs i h,
  )
