-- ===== src/Concurrency/Receiver/Callback.antt =====
-- lib_shared/inc/jar/concurrency/details/callback_receiver.hpp
use cmake_template.Base.{◌≡◌, refl, Bool, true, false, not, if◌then◌else◌, List, [], ◌∷◌}
use cmake_template.Core.Contract.{Exception, Outcome, ok}
use cmake_template.Concurrency.Receiver.{Receiver}

pub data ReceiverState : Type 0 where
  initial completed failed canceled : ReceiverState

abbrev pub is_initial : ReceiverState → Bool
is_initial initial = true
is_initial _ = false

abbrev pub is_failed : ReceiverState → Bool
is_failed failed = true
is_failed _ = false

-- The three handlers and what they do to the rest of the program. The error and cancel handlers are
-- called in `noexcept` functions.
pub record Handlers (V W : Type 0) : Type 0 where
  pub on_complete : V → W → Outcome (Unit {0}) × W
  pub on_error : Exception → W → W
  pub on_cancel : W → W

module _ {V W : Type 0} (h : Handlers V W) where
  unfoldable pub complete : V → ReceiverState → W → Outcome (Unit {0}) × ReceiverState × W
  complete v s w =
      if is_initial s
      then (let (o, w') = h.on_complete v w in (o, completed, w'))
      else (ok tt, s, w)

  unfoldable pub fail : Exception → ReceiverState → W → ReceiverState × W
  fail e s w = if is_initial s then (failed, h.on_error e w) else (s, w)

  unfoldable pub cancel : ReceiverState → W → ReceiverState × W
  cancel s w = if is_initial s then (canceled, h.on_cancel w) else (s, w)

  -- The source compares with `failed`.
  unfoldable pub is_canceled : ReceiverState → Bool
  is_canceled s = not (is_failed s)

  unfoldable pub callback_receiver : Receiver V ReceiverState W
  unfolding complete fail cancel is_canceled
  callback_receiver = record {
    complete = complete;
    fail = fail;
    cancel = cancel;
    is_canceled = is_canceled;
  }

-- The complete handler, by the number of its arguments: the overload for more than one does not
-- compile.
pub data CompleteHandler (W : Type 0) : Type 1 where
  unary : {V : Type 0} → (V → W → Outcome (Unit {0}) × W) → CompleteHandler W
  nullary : (W → Outcome (Unit {0}) × W) → CompleteHandler W

-- The `Value` of the receiver; `void` is the unit type.
abbrev pub ValueType : {W : Type 0} → CompleteHandler W → Type 0
ValueType (unary {V} f) = V
ValueType (nullary f) = Unit {0}

module _ {W : Type 0} where
  -- `make_callback_receiver`: the handlers of the receiver, which starts in `initial`.
  unfoldable pub make_callback_receiver :
      (complete_handler : CompleteHandler W)
      → (error_handler : Exception → W → W) → (cancel_handler : W → W)
      → Handlers (ValueType complete_handler) W × ReceiverState
  make_callback_receiver (unary f) on_error on_cancel =
      (record { on_complete = f; on_error = on_error; on_cancel = on_cancel }, initial)
  make_callback_receiver (nullary f) on_error on_cancel =
      (record { on_complete = λ _ w. f w; on_error = on_error; on_cancel = on_cancel }, initial)

pub data Signal (V : Type 0) : Type 0 where
  completes : V → Signal V
  fails : Exception → Signal V
  cancels : Signal V

module _ {V W : Type 0} (h : Handlers V W) where
  -- One call on the receiver.
  unfoldable pub signal : Signal V → ReceiverState × W → ReceiverState × W
  unfolding complete fail cancel
  signal (completes v) (s, w) = let (o, s', w') = complete h v s w in (s', w')
  signal (fails e) (s, w) = fail h e s w
  signal cancels (s, w) = cancel h s w

  unfoldable pub signals : List (Signal V) → ReceiverState × W → ReceiverState × W
  signals [] c = c
  signals (x ∷ xs) c = signals xs (signal x c)

  abbrev pub handled : Signal V → W → ReceiverState × W
  handled (completes v) w = (completed, (h.on_complete v w).1)
  handled (fails e) w = (failed, h.on_error e w)
  handled cancels w = (canceled, h.on_cancel w)

  signals_again :
      (xs : List (Signal V)) (s : ReceiverState) (w : W)
      → is_initial s ≡ false
      → signals xs (s, w) ≡ (s, w)
  unfolding signals signal
  signals_again [] s w e = refl
  signals_again (completes v ∷ xs) s w e = rw e (signals_again xs s w e)
  signals_again (fails x ∷ xs) s w e = rw e (signals_again xs s w e)
  signals_again (cancels ∷ xs) s w e = rw e (signals_again xs s w e)

  one_handler-initial :
      (x : Signal V) (xs : List (Signal V)) (w : W) → signals (x ∷ xs) (initial, w) ≡ handled x w
  unfolding signals signal
  one_handler-initial (completes v) xs w = signals_again xs completed _ refl
  one_handler-initial (fails e) xs w = signals_again xs failed _ refl
  one_handler-initial cancels xs w = signals_again xs canceled _ refl

module _ {W : Type 0} where
  -- A receiver that `make_callback_receiver` makes, of a complete handler of one argument or of none,
  -- calls one handler, once: of any non-empty sequence of `complete`, `fail` and `cancel` the first
  -- runs its handler, and the others do nothing, neither to the receiver nor to the rest of the
  -- program.
  pub one_handler :
      (c : CompleteHandler W) (on_error : Exception → W → W) (on_cancel : W → W)
      (x : Signal (ValueType c)) (xs : List (Signal (ValueType c))) (w : W)
      → let (h, s) = make_callback_receiver c on_error on_cancel in
        signals h (x ∷ xs) (s, w) ≡ handled h x w
  unfolding make_callback_receiver
  one_handler (unary f) on_error on_cancel x xs w = one_handler-initial _ x xs w
  one_handler (nullary f) on_error on_cancel x xs w = one_handler-initial _ x xs w
