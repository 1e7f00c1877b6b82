-- ===== src/Service.antt =====
-- exe_service/{inc,src}/app/application.{hpp,cpp} and exe_service/src/main.cpp. `std::async` is what it
-- does at each call: it returns a future whose task has ended at `wait`, or throws, where the system
-- has no thread for it.
use cmake_template.Base.{
  ℕ, zero, suc, ◌+◌, ◌<◌, ◌≡◌, ap, Option, none, some, ltb, if◌then◌else◌, ◌^◌, ◌-◌, arith,
}
use cmake_template.Core.Contract.{Outcome, ok, ◌>>◌, ◌>>=◌}

pub record Application : Type 0 where
  pub unused : ℕ  -- m_unused, a `std::int32_t` that counts up from 0

-- `application::call`
unfoldable pub call : (async : Outcome (Unit {0})) → Outcome ℕ
call async = async >> ok 0

-- `application::run`; `none` is the undefined overflow of the counter.
unfoldable pub run : (async : Outcome (Unit {0})) → Application → Option (Outcome ℕ × Application)
unfolding call
run async a =
    if ltb a.unused (2 ^ 31 - 1) then some (call async, record { unused = a.unused + 1 }) else none

-- `main`; an exception that leaves it ends the program.
unfoldable pub main : (async : Outcome (Unit {0})) → Option (Outcome ℕ)
unfolding run
main async = elim (run async (record { unused = 0 })) [
  | none ↦ none
  | some (o, a) ↦ some (o >>= λ _. ok 0)
]

-- `n` calls of `run` of one application.
abbrev pub run_times : ℕ → (async : Outcome (Unit {0})) → Application → Option Application
run_times zero async a = some a
run_times (suc n) async a = elim (run async a) [ none ↦ none | some (o, a') ↦ run_times n async a' ]

run-next :
    (async : Outcome (Unit {0})) (u : ℕ)
    → suc u < 2 ^ 31
    → run async (record { unused = u }) ≡ some (call async, record { unused = suc u })
unfolding run
run-next async u h = ground arith

run-counts :
    (n : ℕ) (async : Outcome (Unit {0})) (u k : ℕ)
    → k ≡ n + u
    → k < 2 ^ 31
    → run_times n async (record { unused = u }) ≡ some (record { unused = k })
run-counts zero async u k e h = ap (λ v. some (record { unused = v })) (omega arith)
run-counts (suc n) async u k e h =
    rw (run-next async u (omega arith), run_times) (run-counts n async (suc u) k (omega arith) h)

-- An application counts its runs, and nothing overflows in less than 2 ^ 31 of them, whether
-- threads can be started or not.
pub runs_counted :
    (n : ℕ) (async : Outcome (Unit {0}))
    → n < 2 ^ 31
    → run_times n async (record { unused = 0 }) ≡ some (record { unused = n })
runs_counted n async h = run-counts n async 0 n (omega arith) h
