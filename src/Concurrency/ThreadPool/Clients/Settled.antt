-- ===== src/Concurrency/ThreadPool/Clients/Settled.antt =====
-- Whose task has been executed, or told that its future is canceled, has its future decided.
use cmake_template.Base.{
  ℕ, ◌<◌, ◌==◌, ==_iff, Bool-cases, ◌≡◌, refl, ap, sym, ◌∙◌, inl, inr, Bool, true, false, List, [],
  ◌∷◌, ◌++◌, none, some, weigh, weigh-append, arith, Option-cases,
}
use cmake_template.Core.Contract.{Outcome}
use cmake_template.Concurrency.Future.{FutureResult, SharedState, is_canceled}
use cmake_template.Concurrency.Receiver.Value.{value_receiver}
use cmake_template.Concurrency.Sender.Chain.{Chain, is_canceled-adapted, computation_of}
use cmake_template.Concurrency.Sender.Wait.{as_result}
use cmake_template.Concurrency.ThreadPool.Threads
use cmake_template.Concurrency.ThreadPool.Threads.{Worker, busy, running, Pool}
use cmake_template.Concurrency.ThreadPool.Threads.Future.{
  Job, waited, other, World, at_first, is_waited,
}
use cmake_template.Concurrency.ThreadPool.Clients
use cmake_template.Concurrency.ThreadPool.Clients.{
  Event, canceled, changed, ended, Program, PoolStep, Aside, Reach, Run, Move, works, ends,
  ends_other, asks, cancels, changes, note, nothing, is_end, outside, receiver_of,
}
use cmake_template.Concurrency.ThreadPool.Clients.History.{
  replay, decision, decision-append, decided, get-replay,
}
use cmake_template.Concurrency.ThreadPool.Clients.Invariant.{
  Reach-replay, note-cases, canceled-get, executed-stays,
}

module _ {V W : Type 0} (chains : ℕ → Chain W V) where
  -- Something decides the future `i`.
  abbrev pub Decided : (w : W) (i : ℕ) → List (Event W) → Type 0
  Decided w i h = (x : Outcome (FutureResult V)) × (decision chains i h (at_first w) ≡ some x)

  Decided-append :
      (w : W) (i : ℕ) (h more : List (Event W)) → Decided w i h → Decided w i (h ++ more)
  Decided-append w i h more (x, e) = (x, decision-append chains i h more (at_first w) ∙ rw e refl)

  -- An event that decides, or else one before it.
  Decided-last :
      (w : W) (i : ℕ) (h : List (Event W)) (e : Event W) (x : Outcome (FutureResult V))
      → decided chains i e (replay chains h (at_first w)) ≡ some x
      → Decided w i (h ++ (e ∷ []))
  Decided-last w i h e x d = elim (Option-cases (decision chains i h (at_first w))) [
    | inl none_before ↦
        (x, decision-append chains i h (e ∷ []) (at_first w) ∙ rw none_before (rw d refl))
    | inr (y, before) ↦ Decided-append w i h (e ∷ []) (y, before)
  ]

  -- A future that reads as canceled is decided.
  canceled-Decided :
      (w : W) (i : ℕ) (h : List (Event W))
      → is_canceled ((replay chains h (at_first w)).0 i) ≡ true
      → Decided w i h
  canceled-Decided w i h c =
      let (x, e) = canceled-get ((replay chains h (at_first w)).0 i) c in
      (x, sym (get-replay chains (λ v. v) i h (at_first w) refl) ∙ e)

  -- Who has been told that the future `i` is canceled, and who has executed its task, has it decided.
  pub record Settles (w : W) (i : ℕ) (p : Program V W) : Type 0 where
    pub told : (k : ℕ) → p.asked k ≡ some (i, true) → Decided w i p.history
    pub executed : 0 < weigh (is_waited i) p.pool.executed → Decided w i p.history

  happens-Settles :
      {w : W} {i : ℕ} (p : Program V W) (e : Event W)
      → Settles w i p
      → Settles w i (Clients.happens chains e p)
  happens-Settles {w} {i} p e v = record {
    told = λ k a. Decided-append w i p.history (e ∷ []) (Settles.told v k a);
    executed = λ z. Decided-append w i p.history (e ∷ []) (Settles.executed v z);
  }

  -- The task of the future itself has ended, or another one.
  ended-Decided :
      {w : W} {i : ℕ} (p : Program V W) (k j : ℕ) (b : Bool)
      → Settles w i p
      → p.asked k ≡ some (j, b)
      → 0 < weigh (is_waited i) (p.pool.executed ++ (waited j ∷ []))
      → Decided w i (p.history ++ (ended j b ∷ []))
  ended-Decided {w} {i} p k j b v a z = elim (Bool-cases (i == j)) [
    | inl same ↦ own b a ((==_iff i j).0 same) same
    | inr different ↦ Decided-append w i p.history (ended j b ∷ []) (
        Settles.executed v (
          let last : weigh (is_waited {W = W} i) (waited j ∷ []) ≡ 0 = rw different refl in
          omega (arith, z, last, weigh-append (is_waited i) p.pool.executed (waited j ∷ []))))
  ]
    where
      own :
          (b : Bool)
          → p.asked k ≡ some (j, b)
          → i ≡ j
          → (i == j) ≡ true
          → Decided w i (p.history ++ (ended j b ∷ []))
      own true a e same =
          Decided-append w i p.history (ended j true ∷ [])
            (Settles.told v k (a ∙ ap (λ l. some (l, true)) (sym e)))
      own false a e same =
          Decided-last w i p.history (ended j false)
            (as_result (computation_of (chains j) (replay chains p.history (at_first w)).1).0)
            (rw same refl)

  -- Only the end of its own task executes a task.
  other_executed :
      (i : ℕ) (done : List (Job W)) (f : W → W)
      → 0 < weigh (is_waited i) (done ++ (other f ∷ []))
      → 0 < weigh (is_waited i) done
  other_executed i done f z = omega (arith, z, weigh-append (is_waited i) done (other f ∷ []))

  released-told :
      {w : W} {i : ℕ} (p : Program V W) (k : ℕ) (e : Event W)
      → Settles w i p
      → (j : ℕ) → note p.asked k none j ≡ some (i, true)
      → Decided w i (p.history ++ (e ∷ []))
  released-told {w} {i} p k e v j a = elim (note-cases p.asked k none j (i, true) a) [
    | inl (same, none_some) ↦ absurd (cc none_some)
    | inr (different, before) ↦ Decided-append w i p.history (e ∷ []) (Settles.told v j before)
  ]

  asks_state : (j : ℕ) (t : SharedState V) → (receiver_of chains j).is_canceled t ≡ is_canceled t
  unfolding value_receiver
  asks_state j t = is_canceled-adapted (chains j) (value_receiver V W) t

  asked-Decided :
      {w : W} (p : Program V W) (i j k h : ℕ)
      → p.world ≡ replay chains p.history (at_first w)
      → Settles w i p
      → note p.asked k (some (j, (receiver_of chains j).is_canceled (p.world.0 j))) h
        ≡ some (i, true)
      → Decided w i p.history
  asked-Decided {w} p i j k h same v a = elim (note-cases p.asked k _ h (i, true) a) [
    | inl (here, now) ↦
        let own : j ≡ i = cc in
        let told : (receiver_of chains j).is_canceled (p.world.0 j) ≡ true = cc in
        canceled-Decided w i p.history (
          ap (λ (s : World V W). is_canceled (s.0 i)) (sym same)
          ∙ ap (λ l. is_canceled (p.world.0 l)) (sym own)
          ∙ sym (asks_state j (p.world.0 j))
          ∙ told)
    | inr (different, before) ↦ Settles.told v h before
  ]

  module _ {n : ℕ} {w : W} where
    pub Reach-Settles : {p : Program V W} (i : ℕ) → Reach chains n w p → Settles w i p
    unfolding Threads.begin
    Reach-Settles i Clients.start = record {
      told = λ k e. absurd (cc e);
      executed = λ z. absurd (omega (arith, z));
    }
    Reach-Settles i (Clients.later r (works st o)) =
        let v = Reach-Settles i r in
        record {
          told = Settles.told v;
          executed = λ z. Settles.executed v (let y = rw (executed-stays st o) at z in y);
        }
    Reach-Settles i (Clients.later {p} r (ends k j b e f)) =
        let v = Reach-Settles i r in
        record { told = released-told p k (ended j b) v; executed = ended-Decided p k j b v f }
    Reach-Settles i (Clients.later {p} r (ends_other k f e)) =
        let v = Reach-Settles i r in
        record {
          told = released-told p k (changed f) v;
          executed = λ z.
              Decided-append w i p.history (changed f ∷ [])
                (Settles.executed v (other_executed i p.pool.executed f z));
        }
    Reach-Settles i (Clients.beside {p} r (asks k j f g)) =
        let v = Reach-Settles i r in
        record {
          told = λ h a. asked-Decided p i j k h (Reach-replay chains r) v a;
          executed = Settles.executed v;
        }
    Reach-Settles i (Clients.beside {p} r (cancels j)) =
        happens-Settles p (canceled j) (Reach-Settles i r)
    Reach-Settles i (Clients.beside {p} r (changes f)) =
        happens-Settles p (changed f) (Reach-Settles i r)
