-- ===== src/Concurrency/RrScheduler/Access.antt =====
-- rr_scheduler.cpp: `m_task_queue[i]`, a call on one queue of the vector.
use cmake_template.Base.{
  ℕ, zero, suc, ◌<◌, ◌≡◌, refl, ap, List, [], ◌∷◌, get_elem?, some, length, arith,
}
use cmake_template.Concurrency.Queue.{Queue}

module _ {ℓ κ} {A : Type ℓ} {R : Type κ} where
  -- `bad` is the answer for an index out of range.
  unfoldable pub on_queue : R → (Queue A → R × Queue A) → List (Queue A) → ℕ → R × List (Queue A)
  on_queue bad f [] i = (bad, [])
  on_queue bad f (q ∷ qs) zero = let (r, q') = f q in (r, q' ∷ qs)
  on_queue bad f (q ∷ qs) (suc i) = let (r, qs') = on_queue bad f qs i in (r, q ∷ qs')

  pub length-on_queue :
      (bad : R) (f : Queue A → R × Queue A) (qs : List (Queue A)) (i : ℕ)
      → length (on_queue bad f qs i).1 ≡ length qs
  unfolding on_queue
  length-on_queue bad f [] i = refl
  length-on_queue bad f (q ∷ qs) zero = refl
  length-on_queue bad f (q ∷ qs) (suc i) = ap suc (length-on_queue bad f qs i)

  -- In range the answer is that of the queue there.
  pub on_queue-answer :
      (P : R → Type 0) (bad : R) (f : Queue A → R × Queue A) (qs : List (Queue A)) (i : ℕ)
      → i < length qs
      → ((q : Queue A) → get_elem? qs i ≡ some q → P (f q).0)
      → P (on_queue bad f qs i).0
  unfolding on_queue
  on_queue-answer P bad f [] i h p = absurd (omega arith)
  on_queue-answer P bad f (q ∷ qs) zero h p = p q refl
  on_queue-answer P bad f (q ∷ qs) (suc i) h p = on_queue-answer P bad f qs i (omega arith) p
