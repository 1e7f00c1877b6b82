-- ===== src/Tests/Services.antt =====
-- The service executable, with and without a thread for its task.
use cmake_template.Base.{◌≡◌, refl, some, arith}
use cmake_template.Core.Contract.{ok, throws, system_error}
use cmake_template.Service.{main, run_times, runs_counted}

main_returns : main (ok tt) ≡ some (ok 0)
unfolding main
main_returns = refl

-- The exception of `std::async` leaves `main`.
main_throws : main (throws (system_error 11)) ≡ some (throws (system_error 11))
unfolding main
main_throws = refl

three_runs : run_times 3 (ok tt) (record { unused = 0 }) ≡ some (record { unused = 3 })
three_runs = runs_counted 3 (ok tt) (omega arith)
