-- ===== src/Concurrency/Future/Resolve.antt =====
-- future.hpp: calls on a shared state, one after the other.
use cmake_template.Base.{ℕ, ◌+◌, ◌≡◌, refl, Bool, true, false, List, [], ◌∷◌, some, if◌then◌else◌}
use cmake_template.Core.Contract.{Exception, domain_error, Outcome, ok, throws}
use cmake_template.Concurrency.Future.{
  FutureResult, SharedState, engaged, disengaged, fresh, set_value, set_exception, cancel, broken,
  get, is_canceled, is_init,
}

-- What a promise, a future or the destructor of the promise may do to the state.
pub data Resolution {ℓ} (V : Type ℓ) : Type ℓ where
  sets_value : V → Resolution V
  sets_exception : Exception → Resolution V
  cancels breaks : Resolution V

module _ {ℓ} {V : Type ℓ} where
  unfoldable pub resolve : Resolution V → SharedState V → SharedState V × Bool
  unfolding set_value set_exception cancel broken
  resolve (sets_value v) s = set_value (engaged v) s
  resolve (sets_exception e) s = set_exception e s
  resolve cancels s = cancel s
  resolve breaks s = broken s

  abbrev pub answer : Resolution V → Outcome (FutureResult V)
  answer (sets_value v) = ok (engaged v)
  answer (sets_exception e) = throws e
  answer cancels = ok disengaged
  answer breaks = throws (domain_error "broken promise")

  abbrev pub cancels? : Resolution V → Bool
  cancels? cancels = true
  cancels? _ = false

  -- The state after the calls, and how many of them notified.
  unfoldable pub resolve_all : List (Resolution V) → SharedState V → SharedState V × ℕ
  resolve_all [] s = (s, 0)
  resolve_all (r ∷ rs) s =
      let (s', notified) = resolve r s in
      let (s'', n) = resolve_all rs s' in (s'', if notified then n + 1 else n)

  resolve_again :
      (r : Resolution V) (s : SharedState V) → is_init s.status ≡ false → resolve r s ≡ (s, false)
  unfolding resolve
  resolve_again (sets_value v) s h = rw h
  resolve_again (sets_exception e) s h = rw h
  resolve_again cancels s h = rw h
  resolve_again breaks s h = rw h

  resolve_all_again :
      (rs : List (Resolution V)) (s : SharedState V)
      → is_init s.status ≡ false
      → resolve_all rs s ≡ (s, 0)
  unfolding resolve_all
  resolve_all_again [] s h = refl
  resolve_all_again (r ∷ rs) s h = rw (resolve_again r s h, resolve_all_again rs s h)

  resolve-fresh : (r : Resolution V) → is_init (resolve r fresh).0.status ≡ false
  unfolding resolve
  resolve-fresh (sets_value v) = refl
  resolve-fresh (sets_exception e) = refl
  resolve-fresh cancels = refl
  resolve-fresh breaks = refl

  first_alone :
      (moved : V → V) (r : Resolution V)
      → let (s, notified) = resolve r fresh in
        ((get moved s).0 ≡ some (answer r))
        × ((if notified then 0 + 1 else 0) ≡ 1)
        × (is_canceled s ≡ cancels? r)
  unfolding resolve get is_canceled
  first_alone moved (sets_value v) = (refl, refl, refl)
  first_alone moved (sets_exception e) = (refl, refl, refl)
  first_alone moved cancels = (refl, refl, refl)
  first_alone moved breaks = (refl, refl, refl)

  -- Of any sequence of `set_value`, `set_exception`, `cancel` and the breaking of the promise on a
  -- new shared state, the first call wins: `get` then gives its value, rethrows its exception,
  -- gives the canceled result, or throws `broken promise`, whatever calls follow; that call is
  -- the only one that notifies; and the state counts as canceled exactly if that call canceled.
  pub first_resolution_wins :
      (moved : V → V) (r : Resolution V) (rs : List (Resolution V))
      → let (s, n) = resolve_all (r ∷ rs) fresh in
        ((get moved s).0 ≡ some (answer r)) × (n ≡ 1) × (is_canceled s ≡ cancels? r)
  unfolding resolve_all
  first_resolution_wins moved r rs =
      rw (resolve_all_again rs (resolve r fresh).0 (resolve-fresh r)) (first_alone moved r)
