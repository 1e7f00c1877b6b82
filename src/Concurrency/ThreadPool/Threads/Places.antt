-- ===== src/Concurrency/ThreadPool/Threads/Places.antt =====
-- Where the tasks of a pool of one thread are, from the oldest to the newest.
use cmake_template.Base.{
  ℕ, zero, suc, ◌≤◌, ◌<◌, ◌≡◌, refl, ap, Bool, true, false, List, [], ◌∷◌, ◌++◌, append-nil,
  append_assoc, Option, none, some, length, get_elem?, set, arith,
}
use cmake_template.Concurrency.Queue.{
  Queue, Reply, item, nullopt, waits, fault, pop, resume_pop, try_pop,
}
use cmake_template.Concurrency.Queue.Wakeup.{System}
use cmake_template.Concurrency.ThreadPool.Threads.{
  Worker, scanning, busy, Call, after_try, after_pop,
}

module _ {ℓ} {A : Type ℓ} where
  abbrev pub held : Worker A → List A
  held (busy a) = a ∷ []
  held _ = []

  abbrev pub given : Reply A → List A
  given (item a) = a ∷ []
  given _ = []

  -- The tasks in execution, those in the queues, and those whose call of `schedule` is under way.
  abbrev pub in_hand : List (Worker A) → List A
  in_hand [] = []
  in_hand (x ∷ ws) = held x ++ in_hand ws

  abbrev pub queued : List (System A) → List A
  queued [] = []
  queued (s ∷ cells) = s.queue.container ++ queued cells

  abbrev pub pending : List (Option (Call A)) → List A
  pending [] = []
  pending (none ∷ calls) = pending calls
  pending (some call ∷ calls) = call.task ∷ pending calls

  -- From the oldest task to the newest.
  abbrev pub in_order :
      (executed : List A) → List (Worker A) → List (System A) → List (Option (Call A)) → List A
  in_order executed ws cells calls = executed ++ (in_hand ws ++ (queued cells ++ pending calls))

  pop-given : (q : Queue A) → given (pop q).0 ++ (pop q).1.container ≡ q.container
  unfolding pop
  pop-given q = by_fields q.is_cancelled q.container
    where
      by_fields :
          (b : Bool) (xs : List A)
          → let r = pop (record { is_cancelled = b; container = xs }) in
            given r.0 ++ r.1.container ≡ xs
      by_fields true [] = refl
      by_fields true (x ∷ xs) = refl
      by_fields false [] = refl
      by_fields false (x ∷ xs) = refl

  resume_pop-given :
      (q : Queue A) → given (resume_pop q).0 ++ (resume_pop q).1.container ≡ q.container
  unfolding resume_pop
  resume_pop-given q = by_fields q.is_cancelled q.container
    where
      by_fields :
          (b : Bool) (xs : List A)
          → let r = resume_pop (record { is_cancelled = b; container = xs }) in
            given r.0 ++ r.1.container ≡ xs
      by_fields true [] = refl
      by_fields true (x ∷ xs) = refl
      by_fields false [] = refl
      by_fields false (x ∷ xs) = refl

  try_pop-given :
      (locked : Bool) (q : Queue A)
      → given (try_pop locked q).0 ++ (try_pop locked q).1.container ≡ q.container
  unfolding try_pop
  try_pop-given locked q = by_fields locked q.container
    where
      by_fields :
          (locked : Bool) (xs : List A)
          → let r = try_pop locked (record { is_cancelled = q.is_cancelled; container = xs }) in
            given r.0 ++ r.1.container ≡ xs
      by_fields true [] = refl
      by_fields true (x ∷ xs) = refl
      by_fields false [] = refl
      by_fields false (x ∷ xs) = refl

  after_try-held : (n : ℕ) (r : Reply A) → held (after_try n r) ≡ given r
  after_try-held n (item a) = refl
  after_try-held n nullopt = refl
  after_try-held n waits = refl
  after_try-held n fault = refl

  after_pop-held : (r : Reply A) → held (after_pop r) ≡ given r
  after_pop-held (item a) = refl
  after_pop-held nullopt = refl
  after_pop-held waits = refl
  after_pop-held fault = refl

  -- What a queue gives, its worker holds.
  pub held-try_pop :
      (n : ℕ) (locked : Bool) (q : Queue A)
      → let (r, q') = try_pop locked q in held (after_try n r) ++ q'.container ≡ q.container
  held-try_pop n locked q = rw (after_try-held n (try_pop locked q).0) (try_pop-given locked q)

  pub held-pop :
      (q : Queue A) → let (r, q') = pop q in held (after_pop r) ++ q'.container ≡ q.container
  held-pop q = rw (after_pop-held (pop q).0) (pop-given q)

  pub held-resume_pop :
      (q : Queue A) → let (r, q') = resume_pop q in held (after_pop r) ++ q'.container ≡ q.container
  held-resume_pop q = rw (after_pop-held (resume_pop q).0) (resume_pop-given q)

-- A list of one element at most, in which there is one.
only {ℓ} :
    {A : Type ℓ} (xs : List A) (i : ℕ) (x y : A)
    → length xs ≤ 1
    → get_elem? xs i ≡ some x
    → (xs ≡ x ∷ []) × (set xs i y ≡ y ∷ [])
only [] i x y h e = absurd (cc e)
only (z ∷ []) zero x y h e = let same : z ≡ x = cc in (rw same refl, refl)
only (z ∷ []) (suc i) x y h e = absurd (cc e)
only (z ∷ z' ∷ xs) i x y h e = absurd (omega arith)

module _ {ℓ} {A : Type ℓ} where
  pending_some :
      (calls : List (Option (Call A))) (j : ℕ) (call : Call A)
      → get_elem? calls j ≡ some (some call)
      → 0 < length (pending calls)
  pending_some [] j call e = absurd (cc e)
  pending_some (none ∷ calls) zero call e = absurd (cc e)
  pending_some (none ∷ calls) (suc j) call e = pending_some calls j call e
  pending_some (some c ∷ calls) j call e = omega arith

  pending-nil : (calls : List (Option (Call A))) → length (pending calls) ≤ 0 → pending calls ≡ []
  pending-nil calls h = nothing (pending calls) h
    where
      nothing : (xs : List A) → length xs ≤ 0 → xs ≡ []
      nothing [] h = refl
      nothing (x ∷ xs) h = absurd (omega arith)

  -- The one call that is under way.
  pub only_pending :
      (calls : List (Option (Call A))) (j : ℕ) (call : Call A) (next : Option (Call A))
      → length (pending calls) ≤ 1
      → get_elem? calls j ≡ some (some call)
      → (pending calls ≡ call.task ∷ []) × (pending (set calls j next) ≡ pending (next ∷ []))
  only_pending [] j call next h e = absurd (cc e)
  only_pending (none ∷ calls) zero call next h e = absurd (cc e)
  only_pending (none ∷ calls) (suc j) call next h e = only_pending calls j call next h e
  only_pending (some c ∷ calls) (suc j) call next h e =
      absurd (omega (arith, pending_some calls j call e))
  only_pending (some c ∷ calls) zero call none h e =
      let rest = pending-nil calls (omega arith) in
      let same : c ≡ call = cc in (rw (same, rest) refl, rest)
  only_pending (some c ∷ calls) zero call (some c') h e =
      let rest = pending-nil calls (omega arith) in
      let same : c ≡ call = cc in (rw (same, rest) refl, rw rest refl)

  -- The worker takes what the queue gives.
  pub fetch-in_order :
      (done : List A) (ws : List (Worker A)) (cells : List (System A))
      (calls : List (Option (Call A))) (c i : ℕ) (s t : System A) (x y : Worker A)
      → length ws ≤ 1
      → length cells ≤ 1
      → get_elem? cells c ≡ some s
      → get_elem? ws i ≡ some x
      → held x ≡ []
      → held y ++ t.queue.container ≡ s.queue.container
      → in_order done (set ws i y) (set cells c t) calls ≡ in_order done ws cells calls
  fetch-in_order done ws cells calls c i s t x y h k e f free moved =
      let (a, b) = only ws i x y h f in
      let (a', b') = only cells c s t k e in
      rw (b, b')
        (rw (a, a', free)
          (ap (◌++◌ done)
            (simp append-nil (rw (← append_assoc) (ap (λ z. z ++ pending calls) moved)))))

  pub finish-in_order :
      (done : List A) (ws : List (Worker A)) (cells : List (System A))
      (calls : List (Option (Call A))) (i : ℕ) (a : A)
      → length ws ≤ 1
      → get_elem? ws i ≡ some (busy a)
      → in_order (done ++ (a ∷ [])) (set ws i (scanning 0)) cells calls
        ≡ in_order done ws cells calls
  finish-in_order done ws cells calls i a h e =
      let (x, y) = only ws i (busy a) (scanning 0) h e in
      rw y (rw x (append_assoc done (a ∷ []) (queued cells ++ pending calls)))

  pub enter-in_hand : (ws : List (Worker A)) → in_hand (ws ++ (scanning 0 ∷ [])) ≡ in_hand ws
  enter-in_hand [] = refl
  enter-in_hand (w ∷ ws) = ap (◌++◌ (held w)) (enter-in_hand ws)

  pub pending-append :
      (calls : List (Option (Call A))) (call : Call A)
      → pending (calls ++ (some call ∷ [])) ≡ pending calls ++ (call.task ∷ [])
  pending-append [] call = refl
  pending-append (none ∷ calls) call = pending-append calls call
  pending-append (some c ∷ calls) call = ap (λ z. c.task ∷ z) (pending-append calls call)

  pub begin-in_order :
      (done : List A) (ws : List (Worker A)) (cells : List (System A))
      (calls : List (Option (Call A))) (call : Call A)
      → in_order done ws cells (calls ++ (some call ∷ []))
        ≡ in_order done ws cells calls ++ (call.task ∷ [])
  begin-in_order done ws cells calls call = simp append_assoc (rw (pending-append calls call) refl)

  -- The one call under way goes on; where it ends, the queue has its task.
  pub deliver-in_order :
      (done : List A) (ws : List (Worker A)) (cells : List (System A))
      (calls : List (Option (Call A))) (c j : ℕ) (s t : System A) (call : Call A)
      (next : Option (Call A))
      → length cells ≤ 1
      → length (pending calls) ≤ 1
      → get_elem? cells c ≡ some s
      → get_elem? calls j ≡ some (some call)
      → t.queue.container ++ pending (next ∷ []) ≡ s.queue.container ++ (call.task ∷ [])
      → in_order done ws (set cells c t) (set calls j next) ≡ in_order done ws cells calls
  deliver-in_order done ws cells calls c j s t call next k one e f moved =
      let (a, b) = only cells c s t k e in
      let (x, y) = only_pending calls j call next one f in
      rw (b, y) (rw (a, x) (ap (λ z. done ++ (in_hand ws ++ z)) (simp append-nil moved)))

  keep-queued :
      (cells : List (System A)) (c : ℕ) (s t : System A)
      → get_elem? cells c ≡ some s
      → t.queue.container ≡ s.queue.container
      → queued (set cells c t) ≡ queued cells
  keep-queued [] c s t e same = refl
  keep-queued (u ∷ cells) zero s t e same =
      let first : u ≡ s = cc in rw first (ap (λ z. z ++ queued cells) same)
  keep-queued (u ∷ cells) (suc c) s t e same =
      ap (◌++◌ u.queue.container) (keep-queued cells c s t e same)

  pub keep-in_order :
      (done : List A) (ws : List (Worker A)) (cells : List (System A))
      (calls : List (Option (Call A))) (c : ℕ) (s t : System A)
      → get_elem? cells c ≡ some s
      → t.queue.container ≡ s.queue.container
      → in_order done ws (set cells c t) calls ≡ in_order done ws cells calls
  keep-in_order done ws cells calls c s t e same = rw (keep-queued cells c s t e same) refl
