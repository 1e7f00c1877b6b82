-- ===== src/Concurrency/RrScheduler/Scan.antt =====
-- rr_scheduler.cpp: the round of `scheduled` over the queues when no lock is contended.
use native.Mathlib.Nat.{mod-add-mod, mod-eq_of_lt, mod-eq-sub-mod}
use cmake_template.Base.{
  ℕ, zero, suc, ◌+◌, ◌-◌, ◌%◌, ◌≤◌, ◌<◌, ◌≡◌, refl, ap, sym, ◌∙◌, subst, ◌⊎◌, inl, inr, Bool, true,
  List, [], ◌∷◌, some, get_elem?, length, dec_lt, ℕ_discrete, add_uint, uint_mod, arith,
}
use cmake_template.Concurrency.Queue.{Queue, Reply, item, nullopt, fault, try_pop}
use cmake_template.Concurrency.RrScheduler.{scan, next_round, pop_own, scheduled}
use cmake_template.Concurrency.RrScheduler.Access.{on_queue}

-- From any start, some step below `l` leads to every index below `l`.
reach_index : (t i l : ℕ) → i < l → (j : ℕ) × (j < l) × ((t + j) % l ≡ i)
reach_index t i l h = elim (dec_lt i (t % l)) [
  | yes before ↦
      let j = l + i - t % l in
      let e : t % l + j ≡ l + i = omega (arith) in
      let e' : l + i - l ≡ i = omega arith in
      (
        j,
        omega arith,
        sym (mod-add-mod t l j)
            ∙ ap (λ k. k % l) e
            ∙ mod-eq-sub-mod {n = l + i} {m = l} (omega arith)
            ∙ ap (λ k. k % l) e'
            ∙ mod-eq_of_lt h,
      )
  | no after ↦
      let j = i - t % l in
      let e : t % l + j ≡ i = omega arith in
      (j, omega arith, sym (mod-add-mod t l j) ∙ ap (λ k. k % l) e ∙ mod-eq_of_lt h)
]

module _ {ℓ} {A : Type ℓ} where
  -- The queue at this index, if there is one, holds no task.
  abbrev pub IsIdle : List (Queue A) → ℕ → Type ℓ
  IsIdle qs i = (q : Queue A) → get_elem? qs i ≡ some q → q.container ≡ []

  -- A task was found, or none was, nothing has changed, and `P`.
  abbrev Found : Reply A × List (Queue A) → List (Queue A) → Type ℓ → Type ℓ
  Found out qs P = ((a : A) × (out.0 ≡ item a)) ⊎ ((out ≡ (nullopt, qs)) × P)

  found_at :
      (q : Queue A) (xs : List A)
      → q.container ≡ xs
      → ((a : A) × ((try_pop true q).0 ≡ item a))
        ⊎ ((try_pop true q ≡ (nullopt, q)) × (q.container ≡ []))
  unfolding try_pop
  found_at q [] e = inr (rw e, e)
  found_at q (x ∷ xs) e = inl (x, rw e)

  try_pop-Found :
      (qs : List (Queue A)) (i : ℕ)
      → i < length qs
      → Found (on_queue fault (try_pop true) qs i) qs (IsIdle qs i)
  unfolding on_queue
  try_pop-Found [] i h = absurd (omega arith)
  try_pop-Found (q ∷ qs) zero h = elim (found_at q q.container refl) [
    | inl (a, e) ↦ inl (a, e)
    | inr (e, f) ↦
        inr (rw e, λ p g. let same : q ≡ p = cc in subst (λ (x : Queue A). x.container ≡ []) same f)
  ]
  try_pop-Found (q ∷ qs) (suc i) h = elim (try_pop-Found qs i (omega arith)) [
    | inl (a, e) ↦ inl (a, e)
    | inr (e, f) ↦ inr (rw e, f)
  ]

  next_round-Found :
      (go : List (Queue A) → Reply A × List (Queue A)) (out : Reply A × List (Queue A))
      (qs : List (Queue A)) (P Q : Type ℓ)
      → Found out qs P
      → (P → Found (go qs) qs Q)
      → Found (next_round go out) qs Q
  unfolding next_round
  next_round-Found go (r, qs') qs P Q (inl (a, e)) h = rw e (inl (a, refl))
  next_round-Found go out qs P Q (inr (e, p)) h =
      subst (λ o. Found (next_round go o) qs Q) (sym e) (h p)

  pop_own-item :
      (t : ℕ) (a : A) (out : Reply A × List (Queue A)) → out.0 ≡ item a → (pop_own t out).0 ≡ item a
  unfolding pop_own
  pop_own-item t a (r, qs) e = rw e

  module _ (locks : ℕ → Bool) (unlocked : (n : ℕ) → locks n ≡ true) (t : ℕ) where
    scan-Found :
        (k n : ℕ) (qs : List (Queue A))
        → 0 < length qs
        → Found
            (scan locks t k n qs)
            qs
            ((j : ℕ) → n ≤ j → j < n + k → IsIdle qs (add_uint t j % length qs))
    unfolding scan
    scan-Found zero n qs h = inr (refl, λ j p q. absurd (omega arith))
    scan-Found (suc k) n qs h =
        let i = add_uint t n % length qs in
        let first : Found (on_queue fault (try_pop (locks n)) qs i) qs (IsIdle qs i) =
          rw (unlocked n) (try_pop-Found qs i (omega arith)) in
        next_round-Found (scan locks t k (n + 1)) _ qs (IsIdle qs i) _ first λ idle.
          elim (scan-Found k (n + 1) qs h) [
            | inl found ↦ inl found
            | inr (e, rest) ↦ inr (
              e,
              λ j p q. elim (ℕ_discrete j n) [
                | yes same ↦ rw same idle
                | no later ↦ rest j (omega arith) (omega arith)
              ],
            )
          ]

    -- With at least one queue, and while the thread's index and the number of queues do not reach
    -- beyond 2 ^ 32, a call of `scheduled` that gets every lock misses no task: it hands one out, or
    -- else every queue was empty.
    pub scheduled_misses_nothing :
        (qs : List (Queue A))
        → 0 < length qs
        → t + length qs ≤ uint_mod
        → ((a : A) × ((scheduled locks t qs).0 ≡ item a)) ⊎ ((i : ℕ) → i < length qs → IsIdle qs i)
    unfolding scheduled
    scheduled_misses_nothing qs h small = elim (scan-Found (length qs) 0 qs h) [
      | inl (a, e) ↦ inl (a, pop_own-item t a (scan locks t (length qs) 0 qs) e)
      | inr (e, idle) ↦ inr λ i k.
          let (j, below, there) = reach_index t i (length qs) k in
          let exact : add_uint t j ≡ t + j = mod-eq_of_lt (omega arith) in
          let at : add_uint t j % length qs ≡ i = ap (λ x. x % length qs) exact ∙ there in
          subst (IsIdle qs) at (idle j (omega arith) (omega arith))
    ]
