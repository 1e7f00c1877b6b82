-- ===== src/Concurrency/ThreadPool/Clients/History.antt =====
-- What a history of cancellations and ended tasks makes of the futures.
use cmake_template.Base.{
  ℕ, ◌==◌, ==_iff, Bool-cases, ◌≡◌, refl, ap, sym, ◌∙◌, ◌⊎◌, inl, inr, true, false, List, [], ◌∷◌,
  ◌++◌, Option, none, some, if◌then◌else◌,
}
use cmake_template.Core.Contract.{Outcome, ok, throws, domain_error}
use cmake_template.Concurrency.Future.{
  FutureResult, SharedState, disengaged, fresh, is_init, get, cancel, set_value, set_exception,
  broken,
}
use cmake_template.Concurrency.Promise.{destroy_promise}
use cmake_template.Concurrency.Receiver.Value.{value_receiver}
use cmake_template.Concurrency.Sender.Denote.{deliver}
use cmake_template.Concurrency.Sender.Chain.{
  Chain, computation_of, complete_task, complete_task-adapted,
}
use cmake_template.Concurrency.Sender.Wait.{as_result, attached}
use cmake_template.Concurrency.ThreadPool.Threads.Future.{World, update}
use cmake_template.Concurrency.ThreadPool.Clients.{
  Event, canceled, changed, ended, effect, receiver_of,
}

-- The first answer counts.
abbrev pub first {ℓ} : {A : Type ℓ} → Option A → Option A → Option A
first none y = y
first (some x) y = some x

module _ {V W : Type 0} (chains : ℕ → Chain W V) where
  abbrev pub replay : List (Event W) → World V W → World V W
  replay [] s = s
  replay (e ∷ es) s = replay es (effect chains e s)

  -- Whether an event decides the future `i`, and how: the cancellation, or the end of the task with
  -- what the functions of the chain compute there.
  abbrev pub decided : ℕ → Event W → World V W → Option (Outcome (FutureResult V))
  decided i (canceled j) s = if i == j then some (ok disengaged) else none
  decided i (ended j false) s =
      if i == j then some (as_result (computation_of (chains j) s.1).0) else none
  decided i _ s = none

  -- The first event that decides.
  abbrev pub decision : ℕ → List (Event W) → World V W → Option (Outcome (FutureResult V))
  decision i [] s = none
  decision i (e ∷ es) s = first (decided i e s) (decision i es (effect chains e s))

  pub replay-append :
      (es more : List (Event W)) (s : World V W) → replay (es ++ more) s ≡ replay more (replay es s)
  replay-append [] more s = refl
  replay-append (e ∷ es) more s = replay-append es more (effect chains e s)

  first-first : {A : Type 0} (x y z : Option A) → first x (first y z) ≡ first (first x y) z
  first-first none y z = refl
  first-first (some a) y z = refl

  pub decision-append :
      (i : ℕ) (es more : List (Event W)) (s : World V W)
      → decision i (es ++ more) s ≡ first (decision i es s) (decision i more (replay es s))
  decision-append i [] more s = refl
  decision-append i (e ∷ es) more s =
      ap (first (decided i e s)) (decision-append i es more (effect chains e s))
      ∙ first-first (decided i e s) (decision i es (effect chains e s)) _

  -- A resolved state stays as it is.
  resolved-deliver :
      (t : SharedState V) (x : Outcome V × W)
      → is_init t.status ≡ false
      → (deliver (value_receiver V W) t x).0 ≡ t
  unfolding deliver value_receiver set_value set_exception
  resolved-deliver t (ok v, w) h = rw h refl
  resolved-deliver t (throws e, w) h = rw h refl

  -- A write of what is there.
  kept_update :
      (states : ℕ → SharedState V) (i j : ℕ) (t : SharedState V)
      → (i ≡ j → t ≡ states i)
      → update states j t i ≡ states i
  kept_update states i j t h = elim (Bool-cases (i == j)) [
    | inl same ↦ rw same (h ((==_iff i j).0 same))
    | inr different ↦ rw different refl
  ]

  hit_update :
      (states : ℕ → SharedState V) (i j : ℕ) (t : SharedState V)
      → (i == j) ≡ true
      → update states j t i ≡ t
  hit_update states i j t same = rw same refl

  resolved-effect :
      (i : ℕ) (e : Event W) (s : World V W)
      → is_init (s.0 i).status ≡ false
      → (effect chains e s).0 i ≡ s.0 i
  unfolding effect
  resolved-effect i (canceled j) s h =
      kept_update s.0 i j (cancel (s.0 j)).0
        λ same. ap (λ k. (cancel (s.0 k)).0) (sym same) ∙ unfold cancel in rw h refl
  resolved-effect i (changed f) s h = refl
  resolved-effect i (ended j true) s h = refl
  resolved-effect i (ended j false) s h =
      kept_update s.0 i j (complete_task (receiver_of chains j) (s.0 j) s.1).0 λ same.
        ap (λ z. z.0) (complete_task-adapted (chains j) (value_receiver V W) (s.0 j) s.1)
        ∙ ap (λ k. (deliver (value_receiver V W) (s.0 k) (computation_of (chains j) s.1)).0)
            (sym same)
        ∙ resolved-deliver (s.0 i) (computation_of (chains j) s.1) h

  resolved-replay :
      (i : ℕ) (es : List (Event W)) (s : World V W)
      → is_init (s.0 i).status ≡ false
      → (replay es s).0 i ≡ s.0 i
  resolved-replay i [] s h = refl
  resolved-replay i (e ∷ es) s h =
      let kept = resolved-effect i e s h in
      resolved-replay i es (effect chains e s) (ap (λ t. is_init t.status) kept ∙ h) ∙ kept

  module _ (moved : V → V) where
    -- A state that is resolved so.
    abbrev Answers : SharedState V → Outcome (FutureResult V) → Type 0
    Answers t x = (is_init t.status ≡ false) × ((get moved t).0 ≡ some x)

    same-Answers :
        {t u : SharedState V} {x : Outcome (FutureResult V)} → t ≡ u → Answers u x → Answers t x
    same-Answers e (r, a) = (ap (λ v. is_init v.status) e ∙ r, ap (λ v. (get moved v).0) e ∙ a)

    fresh-cancel : Answers (cancel fresh).0 (ok disengaged)
    unfolding cancel get
    fresh-cancel = (refl, refl)

    fresh-deliver :
        (x : Outcome V × W) → Answers (deliver (value_receiver V W) fresh x).0 (as_result x.0)
    unfolding deliver value_receiver set_value set_exception get
    fresh-deliver (ok v, w) = (refl, refl)
    fresh-deliver (throws e, w) = (refl, refl)

    -- An event leaves an unresolved future as it is, or decides it.
    fresh-effect :
        (i : ℕ) (e : Event W) (s : World V W)
        → s.0 i ≡ fresh
        → ((decided i e s ≡ none) × ((effect chains e s).0 i ≡ fresh))
          ⊎ ((x : Outcome (FutureResult V)) × (decided i e s ≡ some x)
              × Answers ((effect chains e s).0 i) x)
    unfolding effect
    fresh-effect i (changed f) s h = inl (refl, h)
    fresh-effect i (ended j true) s h = inl (refl, h)
    fresh-effect i (canceled j) s h = elim (Bool-cases (i == j)) [
      | inl same ↦
          let there = ap s.0 (sym ((==_iff i j).0 same)) ∙ h in
          let t = hit_update s.0 i j (cancel (s.0 j)).0 same ∙ ap (λ t. (cancel t).0) there in
          inr (ok disengaged, rw same refl, same-Answers t fresh-cancel)
      | inr different ↦ inl (rw different refl, rw different h)
    ]
    fresh-effect i (ended j false) s h = elim (Bool-cases (i == j)) [
      | inl same ↦
          let there = ap s.0 (sym ((==_iff i j).0 same)) ∙ h in
          let t =
            hit_update s.0 i j (complete_task (receiver_of chains j) (s.0 j) s.1).0 same
            ∙ ap (λ z. z.0) (complete_task-adapted (chains j) (value_receiver V W) (s.0 j) s.1)
            ∙ ap (λ t. (deliver (value_receiver V W) t (computation_of (chains j) s.1)).0) there in
          inr (_, rw same refl, same-Answers t (fresh-deliver (computation_of (chains j) s.1)))
      | inr different ↦ inl (rw different refl, rw different h)
    ]

    -- The first event that decides a future decides what `get` answers.
    pub get-replay :
        (i : ℕ) (es : List (Event W)) (s : World V W)
        → s.0 i ≡ fresh
        → (get moved ((replay es s).0 i)).0 ≡ decision i es s
    get-replay i [] s h = rw h (unfold get in refl)
    get-replay i (e ∷ es) s h = elim (fresh-effect i e s h) [
      | inl (d, f) ↦ get-replay i es (effect chains e s) f ∙ rw d refl
      | inr (x, d, (r, a)) ↦
          ap (λ t. (get moved t).0) (resolved-replay i es (effect chains e s) r) ∙ a ∙ rw d refl
    ]

    abbrev pub or_broken : Option (Outcome (FutureResult V)) → Outcome (FutureResult V)
    or_broken none = throws (domain_error "broken promise")
    or_broken (some x) = x

    resolved-destroyed :
        (t : SharedState V) → is_init t.status ≡ false → destroy_promise attached t ≡ t
    unfolding destroy_promise broken
    resolved-destroyed t h = rw h refl

    -- If the promise is destroyed, `get` answers as the first event that decides, or says that the
    -- promise is broken.
    pub get-destroyed_replay :
        (i : ℕ) (es : List (Event W)) (s : World V W)
        → s.0 i ≡ fresh
        → (get moved (destroy_promise attached ((replay es s).0 i))).0
          ≡ some (or_broken (decision i es s))
    get-destroyed_replay i [] s h = rw h (unfold get destroy_promise broken in refl)
    get-destroyed_replay i (e ∷ es) s h = elim (fresh-effect i e s h) [
      | inl (d, f) ↦ get-destroyed_replay i es (effect chains e s) f ∙ rw d refl
      | inr (x, d, (r, a)) ↦
          let kept = resolved-replay i es (effect chains e s) r in
          ap (λ t. (get moved (destroy_promise attached t)).0) kept
          ∙ ap (λ t. (get moved t).0) (resolved-destroyed ((effect chains e s).0 i) r)
          ∙ a
          ∙ rw d refl
    ]
