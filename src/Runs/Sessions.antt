-- ===== src/Runs/Sessions.antt =====
-- A backend that reads its input in two parts and answers each with one byte.
use pglite_go.Base.{◌+◌, ◌≡◌, refl, false, [], ◌∷◌, ◌++◌, length, drop, none, arith, codes}
use pglite_go.Base.Outcome.{ok}
use pglite_go.Wire.Session.{
  done, read, write, WireConn, on_read, on_write, run, Backend, Conn, pump, turn, drained,
  call_export, loop_once,
}
use pglite_go.Wire.Transfer.{received, sent, run_transfers, pump_consumes}

-- The exports all return 0; a round of the main loop reads three bytes and writes one.
abbrev echo : Backend
echo = record {
  State = Unit {0};
  call = λ name args s. done (ok 0, s);
  main_loop_once = λ s. read 3 (λ got. write (length got ∷ []) (done ((false, none), s)));
}

abbrev staged : WireConn
staged = record { out = codes "Q1234"; off = 0; inbox = []; tx = 0 }

abbrev start : Conn echo
start = record { wire = staged; backend = tt }

abbrev finish : Conn echo
finish = record {
  wire = record { out = codes "Q1234"; off = 5; inbox = 3 ∷ 2 ∷ []; tx = 0 };
  backend = tt;
}

pump_finishes : pump echo 3 (codes "Q1234") start ≡ (ok tt, finish)
unfolding pump turn drained call_export loop_once run on_read on_write
pump_finishes = refl

pump_consumes_example : (finish.wire.out ≡ codes "Q1234") × (finish.wire.off ≡ 5)
pump_consumes_example =
    pump_consumes echo (codes "Q1234") 3 start finish (refl, omega arith) pump_finishes

run_transfers_example :
    (drop 0 (codes "Q1234")
      ≡ received (echo.main_loop_once tt) staged
        ++ drop
            (run (echo.main_loop_once tt) staged).1.off
            (run (echo.main_loop_once tt) staged).1.out)
    × ((run (echo.main_loop_once tt) staged).1.off
        ≡ 0 + length (received (echo.main_loop_once tt) staged))
    × ((run (echo.main_loop_once tt) staged).1.out ≡ codes "Q1234")
    × ((run (echo.main_loop_once tt) staged).1.inbox ≡ [] ++ sent (echo.main_loop_once tt) staged)
    × ((run (echo.main_loop_once tt) staged).1.tx ≡ 0)
run_transfers_example = run_transfers (echo.main_loop_once tt) staged
