-- ===== src/Concurrency/Sender/Denote.antt =====
-- What a chain of `schedule` and `then` does, against the plain composition of its functions.
use cmake_template.Base.{◌≡◌, refl, ap, ◌∙◌, if◌then◌else◌}
use cmake_template.Core.Contract.{Outcome, ok, throws}
use cmake_template.Concurrency.Receiver.{Receiver}
use cmake_template.Concurrency.Sender.{
  Sender, Invocable, caught, schedule_task, complete_with, receiver_adapter, schedule, then_sender,
}

-- A computation with exceptions and effects.
abbrev pub Computation : Type 0 → Type 0 → Type 0
Computation V W = W → Outcome V × W

module _ {W : Type 0} where
  abbrev pub pure : Computation (Unit {0}) W
  pure w = (ok tt, w)

  pub apply : {U V : Type 0} → Invocable U V W → Outcome U × W → Outcome V × W
  apply f (ok u, w) = f u w
  apply f (throws e, w) = (throws e, w)

  -- First `m`, then `f` on its value, unless `m` throws.
  unfoldable pub bind : {U V : Type 0} → Computation U W → Invocable U V W → Computation V W
  unfolding apply
  bind m f w = apply f (m w)

  -- The receiver is completed with the value, or fails with the exception, also with one of its own.
  unfoldable pub deliver : {V T : Type 0} → Receiver V T W → T → Outcome V × W → T × W
  unfolding caught complete_with
  deliver r t x = caught r (complete_with r x t)

  -- A sender does `m`: its task does nothing if the receiver is canceled, and otherwise runs `m` once
  -- and delivers what comes out.
  abbrev pub Denotes : {V : Type 0} → Sender V W → Computation V W → Type 1
  Denotes {V} s m =
      (T : Type 0) (r : Receiver V T W) (t : T) (w : W)
      → (s T r).task t w ≡ (if r.is_canceled t then (t, w) else deliver r t (m w))

  -- `schedule` runs nothing before it completes its receiver.
  pub schedule-Denotes : Denotes (schedule W) pure
  unfolding schedule schedule_task deliver
  schedule-Denotes T r t w = refl

  caught-adapter :
      {U V T : Type 0} (r : Receiver V T W) (f : Invocable U V W) (x : Outcome (Unit {0}) × T × W)
      → caught (receiver_adapter r f) x ≡ caught r x
  unfolding caught receiver_adapter
  caught-adapter r f (ok u, t, w) = refl
  caught-adapter r f (throws e, t, w) = refl

  pub deliver-adapter :
      {U V T : Type 0} (r : Receiver V T W) (f : Invocable U V W) (t : T) (x : Outcome U × W)
      → deliver (receiver_adapter r f) t x ≡ deliver r t (apply f x)
  unfolding deliver apply
  deliver-adapter r f t (ok u, w) =
      unfold receiver_adapter in caught-adapter r f (complete_with r (f u w) t)
  deliver-adapter r f t (throws e, w) = caught-adapter r f (throws e, t, w)

  -- If a sender does `m`, then `then(sender, f)` does `m` followed by `f`: `f` runs exactly if `m`
  -- gives a value, on that value, and its own value or exception reaches the receiver.
  pub then_sender-Denotes :
      {U V : Type 0} (s : Sender U W) (f : Invocable U V W) (m : Computation U W)
      → Denotes s m
      → Denotes (then_sender s f) (bind m f)
  unfolding then_sender bind
  then_sender-Denotes {V} s f m d T r t w =
      d T (receiver_adapter r f) t w
      ∙ unfold receiver_adapter in
        ap (λ (x : T × W). if r.is_canceled t then (t, w) else x) (deliver-adapter r f t (m w))
