-- ===== src/Concurrency/Promise/Handles.antt =====
-- future.hpp: a program that moves, assigns, uses and destroys the handles of one promise. A handle
-- that is assigned to itself is as before; what the future's own moves do concerns no promise.
use cmake_template.Base.{
  ℕ, ◌≡◌, refl, ◌≢◌, true, false, List, [], ◌∷◌, ◌++◌, Option, none, some, get_elem?,
  get_elem?-set_ne, set, ◌⊎◌, ◌∙◌, inl, inr, Bool-cases, if◌then◌else◌, weigh, weigh-append,
  weigh-set, arith,
}
use cmake_template.Core.Contract.{Exception}
use cmake_template.Concurrency.Future.{
  SharedState, is_init, get, set_value, set_exception, cancel, broken,
}
use cmake_template.Concurrency.Promise.{
  Promise, Future, move_promise, move_assign_promise, make_promise, promise_set_value,
  promise_set_exception, promise_cancel, future_cancel, destroy_promise,
}

-- The promise objects in the order of their construction, `none` once destroyed, and the state that
-- they and the future share.
pub record Program {ℓ} (V : Type ℓ) : Type ℓ where
  pub handles : List (Option Promise)
  pub shared : SharedState V

abbrev weigh_handle : Option Promise → ℕ
weigh_handle none = 0
weigh_handle (some p) = if p.is_attached then 1 else 0

-- How many living handles have a shared state.
abbrev pub attached_handles : List (Option Promise) → ℕ
attached_handles = weigh weigh_handle

module _ {ℓ} {V : Type ℓ} where
  unfoldable pub initial : Program V
  unfolding make_promise
  initial = let (h, s) = make_promise {V = V} in record { handles = some h ∷ []; shared = s }

  pub data Step (p : Program V) : Program V → Type ℓ where
    moves :
        (i : ℕ) (h : Promise)
        → get_elem? p.handles i ≡ some (some h)
        → Step p (record p {
          handles = set p.handles i (some (move_promise h).1) ++ (some (move_promise h).0 ∷ []);
        })
    assigns :
        (i j : ℕ) (h g : Promise)
        → i ≢ j
        → get_elem? p.handles i ≡ some (some h)
        → get_elem? p.handles j ≡ some (some g)
        → Step p (record p {
          handles =
              set
                (set p.handles i (some (move_assign_promise h g).0))
                j
                (some (move_assign_promise h g).1);
        })
    sets_value :
        (i : ℕ) (h : Promise) (v : V) (s : SharedState V)
        → get_elem? p.handles i ≡ some (some h)
        → promise_set_value h v p.shared ≡ some s
        → Step p (record p { shared = s })
    sets_exception :
        (i : ℕ) (h : Promise) (e : Exception) (s : SharedState V)
        → get_elem? p.handles i ≡ some (some h)
        → promise_set_exception h e p.shared ≡ some s
        → Step p (record p { shared = s })
    cancels :
        (i : ℕ) (h : Promise) (s : SharedState V)
        → get_elem? p.handles i ≡ some (some h)
        → promise_cancel h p.shared ≡ some s
        → Step p (record p { shared = s })
    future_cancels :
        (f : Future) (s : SharedState V)
        → future_cancel f p.shared ≡ some s
        → Step p (record p { shared = s })
    destroys :
        (i : ℕ) (h : Promise)
        → get_elem? p.handles i ≡ some (some h)
        → Step p (record p { handles = set p.handles i none; shared = destroy_promise h p.shared })

  pub data Reach : Program V → Type ℓ where
    start : Reach initial
    later : {p q : Program V} → Reach p → Step p q → Reach q

  -- A move assignment has taken the state from a handle before it was resolved.
  pub Overwritten : {p : Program V} → Reach p → Type 0
  Overwritten start = ⊥
  Overwritten (later {p} r (assigns i j h g n e f)) =
      ((h.is_attached ≡ true) × (is_init p.shared.status ≡ true)) ⊎ Overwritten r
  Overwritten (later r st) = Overwritten r

  -- While the state is unresolved, one handle can still resolve it, or has been overwritten.
  abbrev Owned : Program V → Type 0 → Type 0
  Owned p lost = is_init p.shared.status ≡ true → (attached_handles p.handles ≡ 1) ⊎ lost

  promise_set_value-resolved :
      (h : Promise) (v : V) (s t : SharedState V)
      → promise_set_value h v s ≡ some t
      → is_init t.status ≡ false
  unfolding promise_set_value set_value
  promise_set_value-resolved h v s t e = ground arith

  promise_set_exception-resolved :
      (h : Promise) (x : Exception) (s t : SharedState V)
      → promise_set_exception h x s ≡ some t
      → is_init t.status ≡ false
  unfolding promise_set_exception set_exception
  promise_set_exception-resolved h x s t e = ground arith

  promise_cancel-resolved :
      (h : Promise) (s t : SharedState V) → promise_cancel h s ≡ some t → is_init t.status ≡ false
  unfolding promise_cancel cancel
  promise_cancel-resolved h s t e = ground arith

  future_cancel-resolved :
      (f : Future) (s t : SharedState V) → future_cancel f s ≡ some t → is_init t.status ≡ false
  unfolding future_cancel cancel
  future_cancel-resolved f s t e = ground arith

  destroy_promise-attached :
      (h : Promise) (s : SharedState V)
      → is_init (destroy_promise h s).status ≡ true
      → (is_init s.status ≡ true) × (weigh_handle (some h) ≡ 0)
  unfolding destroy_promise broken
  destroy_promise-attached h s e = ground arith

  assigns-Owned :
      (p : Program V) (i j : ℕ) (h g : Promise)
      → i ≢ j
      → get_elem? p.handles i ≡ some (some h)
      → get_elem? p.handles j ≡ some (some g)
      → attached_handles p.handles ≡ 1
      → let (this, other) = move_assign_promise h g in
        (attached_handles (set (set p.handles i (some this)) j (some other)) ≡ 1)
        ⊎ (h.is_attached ≡ true)
  unfolding move_assign_promise
  assigns-Owned p i j h g n e f o = elim (Bool-cases h.is_attached) [
    | inl attached ↦ inr attached
    | inr detached ↦
        let assigned = set p.handles i (some g) in
        let light : weigh_handle (some h) ≡ 0 = rw detached refl in
        let kept : get_elem? assigned j ≡ some (some g) =
          get_elem?-set_ne p.handles i j (some g) n ∙ f in
        inl (
          omega (
            arith,
            o,
            light,
            weigh-set weigh_handle p.handles i (some h) (some g) e,
            weigh-set weigh_handle assigned j (some g) (some (record { is_attached = false })) kept,
          ))
  ]

  Reach-Owned : {p : Program V} (r : Reach p) → Owned p (Overwritten r)
  unfolding initial move_promise Overwritten
  Reach-Owned start k = inl refl
  Reach-Owned (later {p} r (moves i h e)) k = elim (Reach-Owned r k) [
    | inr lost ↦ inr lost
    | inl o ↦
        let detached : Promise = record { is_attached = false } in
        inl (
          omega (
            arith,
            o,
            weigh-append weigh_handle (set p.handles i (some detached)) (some h ∷ []),
            weigh-set weigh_handle p.handles i (some h) (some detached) e,
          ))
  ]
  Reach-Owned (later {p} r (assigns i j h g n e f)) k = elim (Reach-Owned r k) [
    | inr lost ↦ inr (inr lost)
    | inl o ↦ elim (assigns-Owned p i j h g n e f o) [
      | inl one ↦ inl one
      | inr attached ↦ inr (inl (attached, k))
    ]
  ]
  Reach-Owned (later {p} r (sets_value i h v s e f)) k =
      absurd (ground (arith, promise_set_value-resolved h v p.shared s f))
  Reach-Owned (later {p} r (sets_exception i h x s e f)) k =
      absurd (ground (arith, promise_set_exception-resolved h x p.shared s f))
  Reach-Owned (later {p} r (cancels i h s e f)) k =
      absurd (ground (arith, promise_cancel-resolved h p.shared s f))
  Reach-Owned (later {p} r (future_cancels f s e)) k =
      absurd (ground (arith, future_cancel-resolved f p.shared s e))
  Reach-Owned (later {p} r (destroys i h e)) k =
      let (unresolved, light) = destroy_promise-attached h p.shared k in
      elim (Reach-Owned r unresolved) [
        | inr lost ↦ inr lost
        | inl o ↦ inl (omega (arith, o, light, weigh-set weigh_handle p.handles i (some h) none e))
      ]

  get-resolved :
      (moved : V → V) (s : SharedState V) → is_init s.status ≡ false → (get moved s).0 ≢ none
  unfolding get
  get-resolved moved s e = ground arith

  -- However the handles of a promise are moved, assigned, used and destroyed, and whenever its future
  -- cancels: once none of the living handles has a shared state, `get` answers, unless a move
  -- assignment has overwritten the handle that had the state before it was resolved.
  pub get-abandoned :
      (moved : V → V) {p : Program V} (r : Reach p)
      → attached_handles p.handles ≡ 0
      → ((get moved p.shared).0 ≢ none) ⊎ Overwritten r
  get-abandoned moved {p} r gone = elim (Bool-cases (is_init p.shared.status)) [
    | inr e ↦ inl (get-resolved moved p.shared e)
    | inl e ↦ elim (Reach-Owned r e) [
      | inl one ↦ absurd (omega (arith, one, gone))
      | inr lost ↦ inr lost
    ]
  ]
