-- ===== src/Concurrency/RrScheduler/Balance.antt =====
-- rr_scheduler.cpp: calls of `schedule` in a row, when no lock is contended.
use native.Mathlib.Nat.{mod-add-mod, add-mod_right, mod-eq_of_lt, mod-eq-sub-mod, mod-lt}
use cmake_template.Base.{
  ℕ, zero, suc, ◌+◌, ◌-◌, ◌*◌, ◌%◌, ◌≤◌, ◌<◌, ◌≡◌, ◌≢◌, refl, ap, sym, subst, ◌∙◌, Bool, true,
  false, List, [], ◌∷◌, some, get_elem?, get_elem?-of_lt, get_elem?-set_self, get_elem?-set_ne, set,
  length, length-set, dec_lt, add_uint, mul_size, uint_mod, arith,
}
use cmake_template.Concurrency.Queue.{Queue, push, try_push}
use cmake_template.Concurrency.RrScheduler.{RrScheduler, schedule, try_schedule, push_own}
use cmake_template.Concurrency.RrScheduler.Access.{on_queue}

-- Two indices less than `l` apart.
mod-apart : (i d l : ℕ) → 0 < d → d < l → (i + d) % l ≢ i % l
mod-apart i d l h k e = elim (dec_lt (i % l + d) l) [
  | yes below ↦
      let same : i % l + d ≡ i % l = sym (mod-eq_of_lt below) ∙ mod-add-mod i l d ∙ e in
      omega (arith, same, h)
  | no above ↦
      let bound : i % l < l = mod-lt i (omega (arith, k)) in
      let small : i % l + d - l < l = omega (arith, bound, k) in
      let same : i % l + d - l ≡ i % l =
        sym (mod-eq_of_lt small)
        ∙ sym (mod-eq-sub-mod {n = i % l + d} {m = l} (omega (arith, above)))
        ∙ mod-add-mod i l d
        ∙ e in
      omega (arith, same, k, above)
]

-- No lock is contended.
abbrev pub all_free : ℕ → Bool
all_free n = true

module _ {ℓ} {A : Type ℓ} where
  pub on_queue-set {κ} :
      {R : Type κ} (bad : R) (f : Queue A → R × Queue A) (qs : List (Queue A)) (i : ℕ) (q : Queue A)
      → get_elem? qs i ≡ some q
      → on_queue bad f qs i ≡ ((f q).0, set qs i (f q).1)
  unfolding on_queue
  on_queue-set bad f [] i q e = absurd (cc e)
  on_queue-set bad f (u ∷ qs) zero q e = let same : u ≡ q = cc in rw same refl
  on_queue-set bad f (u ∷ qs) (suc i) q e = rw (on_queue-set bad f qs i q e) refl

  try_first :
      (a : A) (i k : ℕ) (qs : List (Queue A)) (q : Queue A)
      → i < uint_mod
      → 0 < k
      → get_elem? qs (i % length qs) ≡ some q
      → try_schedule all_free i k 0 a qs ≡ (true, set qs (i % length qs) (push a q))
  unfolding try_schedule try_push push
  try_first a i zero qs q b h e = absurd (omega (arith, h))
  try_first a i (suc k) qs q b h e =
      let index : add_uint i 0 ≡ i = omega (arith, b) in
      let answer : on_queue false (try_push true a) qs (add_uint i 0 % length qs)
          ≡ (true, set qs (i % length qs) (push a q)) =
        rw index (on_queue-set false (try_push true a) qs (i % length qs) q e) in
      subst
        (λ z.
          elim z.0 [ true ↦ (true, z.1) | false ↦ try_schedule all_free i k 1 a z.1 ]
          ≡ (true, set qs (i % length qs) (push a q)))
        (sym answer) refl

  abbrev scheduled_to : (l : ℕ) → A → Queue A → RrScheduler A → RrScheduler A
  scheduled_to l a q s = record s {
    queues = set s.queues (s.push_index % l) (push a q);
    push_index = s.push_index + 1;
  }

  schedule_lem :
      (l : ℕ) (a : A) (s : RrScheduler A) (q : Queue A)
      → length s.queues ≡ l
      → s.push_index + 1 < uint_mod
      → 0 < l
      → l * 4 < uint_mod
      → get_elem? s.queues (s.push_index % l) ≡ some q
      → schedule all_free a s ≡ scheduled_to l a q s
  unfolding schedule push_own
  schedule_lem l a s q g b h k e =
      let rounds : 0 < mul_size (length s.queues) 4 = omega (arith, h, k, g) in
      let index : add_uint s.push_index 1 ≡ s.push_index + 1 = omega (arith, b) in
      let pushed =
        try_first a s.push_index (mul_size (length s.queues) 4) s.queues q (omega (arith, b)) rounds
          (rw g e) in
      let queues =
        ap (push_own s.push_index a) pushed
        ∙ ap (λ z. set s.queues (s.push_index % z) (push a q)) g in
      λ m. record s { queues = queues m; push_index = index m }

  -- Calls of `schedule` in a row.
  abbrev pub schedule_each : List A → RrScheduler A → RrScheduler A
  schedule_each [] s = s
  schedule_each (a ∷ more) s = schedule_each more (schedule all_free a s)

  -- What the `t`-th queue, counted from the one that is next, gets of the tasks.
  abbrev pub given : List A → ℕ → Queue A → Queue A
  given [] t q = q
  given (a ∷ more) zero q = push a q
  given (a ∷ more) (suc t) q = given more t q

  given-beyond : (more : List A) (t : ℕ) (q : Queue A) → length more ≤ t → given more t q ≡ q
  given-beyond [] t q h = refl
  given-beyond (a ∷ more) zero q h = absurd (omega (arith, h))
  given-beyond (a ∷ more) (suc t) q h = given-beyond more t q (omega (arith, h))

  each-given :
      (tasks : List A) (s : RrScheduler A) (l t : ℕ) (q : Queue A)
      → length s.queues ≡ l
      → s.push_index + length tasks < uint_mod
      → l * 4 < uint_mod
      → length tasks ≤ l
      → t < l
      → get_elem? s.queues ((s.push_index + t) % l) ≡ some q
      → get_elem? (schedule_each tasks s).queues ((s.push_index + t) % l) ≡ some (given tasks t q)
  each-given [] s l t q g b k n h e = e
  each-given (a ∷ more) s l zero q g b k n h e =
      let here : s.push_index + 0 ≡ s.push_index = omega arith in
      let e0 : get_elem? s.queues (s.push_index % l) ≡ some q = rw here at e in
      let lap : (s.push_index + 1 + (l - 1)) % l ≡ s.push_index % l =
        ap (λ z. z % l) (omega (arith, h)) ∙ add-mod_right s.push_index l in
      let inside : s.push_index % l < length s.queues = omega (arith, g, mod-lt s.push_index h) in
      let rest =
        each-given more (scheduled_to l a q s) l (l - 1) (push a q) (length-set s.queues _ _ ∙ g)
          (omega (arith, b)) k (omega (arith, n)) (omega (arith, h))
          (rw lap (get_elem?-set_self s.queues (s.push_index % l) (push a q) inside)) in
      rw here (
        subst (λ z. get_elem? (schedule_each more z).queues (s.push_index % l) ≡ some (push a q))
          (sym (schedule_lem l a s q g (omega (arith, b)) h k e0))
          ((rw lap at rest) ∙ ap some (given-beyond more (l - 1) (push a q) (omega (arith, n)))))
  each-given (a ∷ more) s l (suc t) q g b k n h e =
      let below : s.push_index % l < l = mod-lt s.push_index (omega (arith, h)) in
      let first_at : s.push_index % l < length s.queues = omega (arith, g, below) in
      let (first, f) = get_elem?-of_lt s.queues (s.push_index % l) first_at in
      let shift : s.push_index + suc t ≡ s.push_index + 1 + t = omega arith in
      let apart : s.push_index % l ≢ (s.push_index + suc t) % l =
        λ z. mod-apart s.push_index (suc t) l (omega arith) h (sym z) in
      let kept : get_elem? (scheduled_to l a first s).queues ((s.push_index + suc t) % l) ≡ some q =
        get_elem?-set_ne s.queues (s.push_index % l) ((s.push_index + suc t) % l) (push a first)
          apart
        ∙ e in
      let rest =
        each-given more (scheduled_to l a first s) l t q (length-set s.queues _ _ ∙ g)
          (omega (arith, b)) k (omega (arith, n)) (omega (arith, h)) (rw shift at kept) in
      subst
        (λ z.
          get_elem? (schedule_each more z).queues ((s.push_index + suc t) % l)
          ≡ some (given more t q))
        (sym (schedule_lem l a s first g (omega (arith, b)) (omega (arith, h)) k f)) (rw shift rest)

  -- Round robin. When no lock is contended and the counter of the calls does not wrap, at most as many
  -- calls of `schedule` in a row as there are queues put their tasks into different queues, one after
  -- the other from the queue that is next on, behind what is there, and leave the other queues alone.
  pub schedule_each-given :
      (tasks : List A) (s : RrScheduler A) (t : ℕ) (q : Queue A)
      → s.push_index + length tasks < uint_mod
      → length s.queues * 4 < uint_mod
      → length tasks ≤ length s.queues
      → t < length s.queues
      → get_elem? s.queues ((s.push_index + t) % length s.queues) ≡ some q
      → get_elem? (schedule_each tasks s).queues ((s.push_index + t) % length s.queues)
        ≡ some (given tasks t q)
  schedule_each-given tasks s t q b k n h e =
      each-given tasks s (length s.queues) t q refl b k n h e
