-- ===== src/Concurrency/Future/Threads.antt =====
-- future.hpp under threads. A resolution is three steps, and it takes no lock: the compare-exchange
-- of `m_state`, the write of `m_data`, and `notify_one`. They interleave with a waiter in `wait`.
-- The relation ends where the first `get` takes what is stored; a second one is in Future alone.
use cmake_template.Base.{
  ℕ, ◌+◌, ◌-◌, ◌<◌, ◌≡◌, refl, ap, ◌≢◌, ◌⊎◌, inl, true, false, not, Option, none, some,
  if◌then◌else◌, arith,
}
use cmake_template.Core.Contract.{bad_variant_access, Outcome, throws}
use cmake_template.Concurrency.Condition.{Waiters, nobody, sleep, notify_one, run_woken}
use cmake_template.Concurrency.Future.{
  FutureResult, Stored, SharedState, is_init, fresh, is_ready, get,
}
use cmake_template.Concurrency.Future.Resolve.{
  Resolution, sets_value, sets_exception, cancels, breaks, resolve, answer,
}

-- Who holds `m_mutex`: a waiter before the predicate of `m_condition.wait`, or one whose predicate
-- was false and which is about to sleep.
pub data Holder : Type 0 where
  free entered deciding : Holder

-- `pending` is what the winner of the compare-exchange has still to write (for `broken`, which
-- writes nothing, it is what stands there already); `notifies` counts the resolutions between their
-- write and `notify_one`; `winner` is the history: the call that won.
pub record System {ℓ} (V : Type ℓ) : Type ℓ where
  pub shared : SharedState V
  pub pending : Option (Stored V)
  pub notifies : ℕ
  pub holder : Holder
  pub waiters : Waiters
  pub winner : Option (Resolution V)

module _ {ℓ} {V : Type ℓ} where
  abbrev pub initial : System V
  initial = record {
    shared = fresh;
    pending = none;
    notifies = 0;
    holder = free;
    waiters = nobody;
    winner = none;
  }

  abbrev claimed : Resolution V → System V → System V
  claimed r s = record s {
    shared = record { status = (resolve r s.shared).0.status; stored = s.shared.stored };
    pending = some (resolve r s.shared).0.stored;
    winner = some r;
  }

  abbrev next_holder : System V → Holder → System V
  next_holder s h = record s { holder = if is_ready s.shared then free else h }

  pub data Step (s : System V) : System V → Type ℓ where
    claims : (r : Resolution V) → is_init s.shared.status ≡ true → Step s (claimed r s)
    writes :
        (d : Stored V)
        → s.pending ≡ some d
        → Step s (record s {
          shared = record { status = s.shared.status; stored = d };
          pending = none;
          notifies = s.notifies + 1;
        })
    notifies_one :
        0 < s.notifies
        → Step s (record s { waiters = notify_one s.waiters; notifies = s.notifies - 1 })
    waits : s.holder ≡ free → Step s (next_holder s entered)
    decides : s.holder ≡ entered → Step s (next_holder s deciding)
    sleeps : s.holder ≡ deciding → Step s (record s { holder = free; waiters = sleep s.waiters })
    resumes :
        s.holder ≡ free
        → 0 < s.waiters.woken
        → Step s (record s { holder = entered; waiters = run_woken s.waiters })
    wakes_spuriously : Step s (record s { waiters = notify_one s.waiters })

  pub data Reach : System V → Type ℓ where
    start : Reach initial
    later : {s t : System V} → Reach s → Step s t → Reach t

  -- What the history says of the shared state and of the write that is due.
  abbrev Agrees : Option (Resolution V) → SharedState V → Option (Stored V) → Type ℓ
  Agrees none s d = (s ≡ fresh) × (d ≡ none)
  Agrees (some r) s d =
      (s.status ≡ (resolve r fresh).0.status)
      × ((d ≡ some (resolve r fresh).0.stored)
          ⊎ ((d ≡ none) × (s.stored ≡ (resolve r fresh).0.stored)))

  resolved-not_init : (r : Resolution V) → is_init (resolve r fresh).0.status ≡ false
  unfolding resolve
  resolved-not_init (sets_value v) = refl
  resolved-not_init (sets_exception e) = refl
  resolved-not_init cancels = refl
  resolved-not_init breaks = refl

  claims-Agrees :
      (r : Resolution V) (w : Option (Resolution V)) (s : SharedState V) (d : Option (Stored V))
      → is_init s.status ≡ true
      → Agrees w s d
      → Agrees (some r) (record s { status = (resolve r s).0.status }) (some (resolve r s).0.stored)
  claims-Agrees r none s d h v = rw v.0 (refl, inl refl)
  claims-Agrees r (some q) s d h v = ground (arith, resolved-not_init q)

  writes-Agrees :
      (x : Stored V) (w : Option (Resolution V)) (s : SharedState V) (d : Option (Stored V))
      → d ≡ some x
      → Agrees w s d
      → Agrees w (record s { stored = x }) none
  writes-Agrees x none s d h v = ground arith
  writes-Agrees x (some q) s d h v = ground arith

  Step-Agrees :
      {s t : System V}
      → Step s t
      → Agrees s.winner s.shared s.pending
      → Agrees t.winner t.shared t.pending
  Step-Agrees {s} (claims r h) v = claims-Agrees r s.winner s.shared s.pending h v
  Step-Agrees {s} (writes d h) v = writes-Agrees d s.winner s.shared s.pending h v
  Step-Agrees (notifies_one h) v = v
  Step-Agrees (waits h) v = v
  Step-Agrees (decides h) v = v
  Step-Agrees (sleeps h) v = v
  Step-Agrees (resumes h k) v = v
  Step-Agrees wakes_spuriously v = v

  Reach-Agrees : {s : System V} → Reach s → Agrees s.winner s.shared s.pending
  Reach-Agrees start = (refl, refl)
  Reach-Agrees (later r st) = Step-Agrees st (Reach-Agrees r)

  -- `none`: a caller of `get` waits.
  abbrev pub settled_answer : Option (Resolution V) → Option (Outcome (FutureResult V))
  settled_answer none = none
  settled_answer (some r) = some (answer r)

  get-resolved :
      (moved : V → V) (r : Resolution V) → (get moved (resolve r fresh).0).0 ≡ some (answer r)
  unfolding resolve get
  get-resolved moved (sets_value v) = refl
  get-resolved moved (sets_exception e) = refl
  get-resolved moved cancels = refl
  get-resolved moved breaks = refl

  get-Agrees :
      (moved : V → V) (w : Option (Resolution V)) (s : SharedState V) (d : Option (Stored V))
      → d ≡ none
      → Agrees w s d
      → (get moved s).0 ≡ settled_answer w
  get-Agrees moved none s d h v = rw v.0 (unfold get in refl)
  get-Agrees moved (some r) s d h v =
      let e : s ≡ (resolve r fresh).0 = ground arith in rw e (get-resolved moved r)

  -- In every reachable state in which no write of the data is due, `get` gives what the one call
  -- that won the compare-exchange decided, and waits if no call has been made.
  pub get-winner :
      (moved : V → V) {s : System V}
      → Reach s
      → s.pending ≡ none
      → (get moved s.shared).0 ≡ settled_answer s.winner
  get-winner moved {s} r h = get-Agrees moved s.winner s.shared s.pending h (Reach-Agrees r)

  -- The state is published before the data: for every value, exception or cancellation there is an
  -- interleaving in which `get` finds the state ready and the data unwritten, and fails with
  -- `std::bad_variant_access`.
  get_overtakes_write :
      (moved : V → V) (r : Resolution V)
      → r ≢ breaks
      → (s : System V) × Reach s
        × (s.winner ≡ some r)
        × ((get moved s.shared).0 ≡ some (throws bad_variant_access))
  unfolding resolve get
  get_overtakes_write moved (sets_value v) h =
      (_, later start (claims (sets_value v) refl), refl, refl)
  get_overtakes_write moved (sets_exception e) h =
      (_, later start (claims (sets_exception e) refl), refl, refl)
  get_overtakes_write moved cancels h = (_, later start (claims cancels refl), refl, refl)
  get_overtakes_write moved breaks h = absurd (h refl)

  -- A ready state, a sleeping waiter, and nobody left to wake it.
  pub record IsStuck (s : System V) : Type ℓ where
    pub ready : is_ready s.shared ≡ true
    pub asleep : 0 < s.waiters.sleeping
    pub quiet : s.waiters.woken + s.notifies ≡ 0
    pub written : s.pending ≡ none

  -- future.hpp loses wake-ups: for every resolution there is an interleaving of it with one `wait`
  -- after which the state is ready and written, the waiter sleeps, and no notification is
  -- outstanding.
  wait_loses_wakeup :
      (r : Resolution V) → (s : System V) × Reach s × (s.winner ≡ some r) × IsStuck s
  unfolding is_ready
  wait_loses_wakeup r = (
    _,
    later
        (later
          (later (later (later (later start (waits refl)) (decides refl)) (claims r refl))
            (writes (resolve r fresh).0.stored refl))
          (notifies_one (omega arith)))
        (sleeps refl),
    refl,
    record {
      ready = ap not (resolved-not_init r);
      asleep = omega arith;
      quiet = omega arith;
      written = refl;
    },
  )

  -- future.hpp publishes the state before the data and notifies without the mutex. For every value,
  -- exception or cancellation there is an interleaving in which `get` finds the state ready and the
  -- data unwritten, and fails with `std::bad_variant_access`; and there is one with a single `wait`
  -- after which the state is ready and written, the waiter sleeps, and no notification is
  -- outstanding.
  pub resolution_races :
      (moved : V → V) (r : Resolution V)
      → r ≢ breaks
      → ((s : System V) × Reach s
          × (s.winner ≡ some r)
          × ((get moved s.shared).0 ≡ some (throws bad_variant_access)))
        × ((s : System V) × Reach s × (s.winner ≡ some r) × IsStuck s)
  resolution_races moved r h = (get_overtakes_write moved r h, wait_loses_wakeup r)
