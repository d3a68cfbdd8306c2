-- ===== src/Backend/Tests/Loops.antt =====
-- The worker's loop.
use planes.Base.{ℕ, false, ◌≡◌, refl, some, [], ◌∷◌, leb, arith}
use planes.Base.Int.{pos}
use planes.Base.Text.{text_leb}
use planes.Base.Result.{ok}
use planes.Backend.Store.{Table, find, before, rowcount}
use planes.Backend.Store.Invariant.{IsValid}
use planes.Backend.Store.Lifecycle.{create}
use planes.Backend.Worker.{Pass, run_loop}
use planes.Backend.Worker.Loop.{run_loop-returns}
use planes.Backend.Worker.Drain.{HasEnded, run_loop-HasEnded}
use planes.Backend.Tests.Jobs.{table-IsValid}
use planes.Backend.Tests.Data.{scenario, optimization, catalog, table, second, engine, show}

-- A client submits the job "c" in each pass, and the flag is set after two passes.
abbrev passes : ℕ → Pass
passes n = record {
  stop = leb 2 n;
  started = "t2";
  finished = "t3";
  during = create "c" "v0" scenario optimization (pos 9) "t2" ∷ [];
  stop_idle = false;
  slept = create "c" "v0" scenario optimization (pos 9) "t2" ∷ [];
}

run_loop-returns_example :
    (rows : Table) × (run_loop show (ok catalog) engine passes 3 table ≡ some (ok tt, rows))
    × IsValid rows
run_loop-returns_example =
    run_loop-returns show (ok catalog) engine 2 passes table table-IsValid (refl, (refl, refl))
      ((λ r e. (tt, tt)), (λ job rows e. ((λ r k. (tt, tt)), (λ job₁ rows₁ e₁. tt))))

run_loop-HasEnded_example :
    (rows : Table) × (run_loop show (ok catalog) engine passes 3 table ≡ some (ok tt, rows))
    × HasEnded show (ok catalog) engine second rows
unfolding find before rowcount text_leb
run_loop-HasEnded_example =
    run_loop-HasEnded show (ok catalog) engine second 2 passes table table-IsValid refl refl
      (omega arith) (λ k. ((refl, tt), (refl, tt))) (refl, (refl, refl))
