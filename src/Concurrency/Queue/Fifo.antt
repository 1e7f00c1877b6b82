-- ===== src/Concurrency/Queue/Fifo.antt =====
-- queue.hpp: what a history of calls takes in and gives out, and in which order.
use mathlib.Core.List.{map-append}
use mathlib.Core.Path.{◌≡⟨◌⟩◌, ◌∎}
use cmake_template.Base.{
  ◌≡◌, refl, sym, ap, ◌≢◌, ◌↔◌, Bool, true, false, List, [], ◌∷◌, ◌++◌, map, append-nil,
  append_assoc, arith,
}
use cmake_template.Concurrency.Queue.{
  Queue, Reply, item, nullopt, waits, fault, pop, try_pop, push, try_push, clear,
}

-- One call, with the outcome of its `try_to_lock` where it has one.
pub data Call {ℓ} (A : Type ℓ) : Type ℓ where
  pops clears : Call A
  try_pops : (locked : Bool) → Call A
  pushes : A → Call A
  try_pushes : (locked : Bool) → A → Call A

-- How an item left the queue: it was returned to a caller, or `clear` destroyed it.
pub data Exit {ℓ} (A : Type ℓ) : Type ℓ where
  delivered dropped : A → Exit A

pub record Ledger {ℓ} (A : Type ℓ) : Type ℓ where
  pub after : Queue A
  pub into : List A
  pub left : List (Exit A)

module _ {ℓ} {A : Type ℓ} where
  abbrev pub exited : Exit A → A
  exited (delivered a) = a
  exited (dropped a) = a

  abbrev pub exits : Reply A → List (Exit A)
  exits (item a) = delivered a ∷ []
  exits _ = []

  abbrev pub accepted : Bool → A → List A
  accepted true a = a ∷ []
  accepted false a = []

  of_reply : Reply A × Queue A → Ledger A
  of_reply (r, q) = record { after = q; into = []; left = exits r }

  unfoldable pub call : Call A → Queue A → Ledger A
  unfolding of_reply
  call pops q = of_reply (pop q)
  call (try_pops locked) q = of_reply (try_pop locked q)
  call (pushes a) q = record { after = push a q; into = a ∷ []; left = [] }
  call (try_pushes locked a) q =
      let (done, q') = try_push locked a q in
      record { after = q'; into = accepted done a; left = [] }
  call clears q = record { after = clear q; into = []; left = map dropped q.container }

  unfoldable pub run : List (Call A) → Queue A → Ledger A
  run [] q = record { after = q; into = []; left = [] }
  run (c ∷ cs) q =
      let first = call c q in
      let rest = run cs first.after in
      record { after = rest.after; into = first.into ++ rest.into; left = first.left ++ rest.left }

  exited-dropped : (xs : List A) → map exited (map dropped xs) ≡ xs
  exited-dropped [] = refl
  exited-dropped (x ∷ xs) = cc (exited-dropped xs)

  pop-order :
      (b : Bool) (xs : List A)
      → let (r, q) = pop (record { is_cancelled = b; container = xs }) in
        map exited (exits r) ++ q.container ≡ xs
  unfolding pop
  pop-order true [] = refl
  pop-order true (x ∷ xs) = refl
  pop-order false [] = refl
  pop-order false (x ∷ xs) = refl

  try_pop-order :
      (locked b : Bool) (xs : List A)
      → let (r, q) = try_pop locked (record { is_cancelled = b; container = xs }) in
        map exited (exits r) ++ q.container ≡ xs
  unfolding try_pop
  try_pop-order locked b [] = refl
  try_pop-order true b (x ∷ xs) = refl
  try_pop-order false b (x ∷ xs) = refl

  call-order :
      (c : Call A) (q : Queue A)
      → map exited (call c q).left ++ (call c q).after.container ≡ q.container ++ (call c q).into
  unfolding call try_push push clear
  call-order pops q = rw append-nil (pop-order q.is_cancelled q.container)
  call-order (try_pops locked) q = rw append-nil (try_pop-order locked q.is_cancelled q.container)
  call-order (pushes a) q = refl
  call-order (try_pushes true a) q = refl
  call-order (try_pushes false a) q = rw append-nil
  call-order clears q = simp append-nil (exited-dropped q.container)

  -- First in, first out, over any history of calls: the items that left, delivered or dropped, in
  -- the order in which they left, followed by what the queue still holds, are what it held at the
  -- start followed by every item that a push accepted, in order. Nothing is lost, invented,
  -- duplicated or reordered.
  pub run-order :
      (cs : List (Call A)) (q : Queue A)
      → map exited (run cs q).left ++ (run cs q).after.container ≡ q.container ++ (run cs q).into
  unfolding run
  run-order [] q = rw append-nil
  run-order (c ∷ cs) q =
      map exited (first.left ++ rest.left) ++ rest.after.container
      ≡⟨ rw (map-append, append_assoc) refl ⟩
        map exited first.left ++ (map exited rest.left ++ rest.after.container)
      ≡⟨ ap (◌++◌ (map exited first.left)) (run-order cs first.after) ⟩
        map exited first.left ++ (first.after.container ++ rest.into)
      ≡⟨ sym (append_assoc (map exited first.left) first.after.container rest.into) ⟩
        (map exited first.left ++ first.after.container) ++ rest.into
      ≡⟨ ap (λ xs. xs ++ rest.into) (call-order c q) ⟩ (q.container ++ first.into) ++ rest.into
      ≡⟨ append_assoc q.container first.into rest.into ⟩ q.container ++ (first.into ++ rest.into) ∎
    where
      first : Ledger A
      first = call c q

      rest : Ledger A
      rest = run cs first.after

  call-is_cancelled :
      (c : Call A) (q : Queue A) → q.is_cancelled ≡ true → (call c q).after.is_cancelled ≡ true
  unfolding call pop try_pop try_push push clear
  call-is_cancelled pops q h = ground arith
  call-is_cancelled (try_pops locked) q h = ground arith
  call-is_cancelled (pushes a) q h = h
  call-is_cancelled (try_pushes locked a) q h = ground arith
  call-is_cancelled clears q h = refl

  run-is_cancelled :
      (cs : List (Call A)) (q : Queue A)
      → q.is_cancelled ≡ true
      → (run cs q).after.is_cancelled ≡ true
  unfolding run
  run-is_cancelled [] q h = h
  run-is_cancelled (c ∷ cs) q h = run-is_cancelled cs (call c q).after (call-is_cancelled c q h)

  pub pop_cancelled : (q : Queue A) → q.is_cancelled ≡ true → pop q ≡ (nullopt, q)
  unfolding pop
  pop_cancelled q h = ground arith

  -- After `clear` the queue stays cancelled for good: whatever calls follow, every later `pop`
  -- answers `nullopt` at once, it neither waits nor returns an item, and leaves the queue as it is.
  pub pop-after_clear :
      (cs : List (Call A)) (q : Queue A)
      → let q' = (run cs (clear q)).after in pop q' ≡ (nullopt, q')
  unfolding clear
  pop-after_clear cs q = pop_cancelled _ (run-is_cancelled cs _ refl)

  -- On no queue does `pop` or `try_pop` read the front of an empty deque; and `pop` waits exactly
  -- when the queue is empty and not cancelled.
  pub pop-safe :
      (q : Queue A)
      → ((pop q).0 ≢ fault)
        × ((b : Bool) → (try_pop b q).0 ≢ fault)
        × (((pop q).0 ≡ waits) ↔ ((q.container ≡ []) × (q.is_cancelled ≡ false)))
  unfolding pop try_pop
  pop-safe q = (ground arith, λ b. ground arith, (ground arith, ground arith))
