-- ===== src/Loss/Tests.antt =====
-- tests/loss_test.py: the run with `--count 500 --drop 5`, whose last number is skipped.
use telematica_telemetria.Base.{refl, ◌≡◌, arith}
use telematica_telemetria.Server.Sequence.{fresh, count_all}
use telematica_telemetria.Loss.Transmit.{transmit}
use telematica_telemetria.Loss.Report.{Agrees, transmit-Agrees}

transmit-Agrees_example : Agrees 5 500 (transmit 5 500) (count_all (transmit 5 500).numbers fresh)
transmit-Agrees_example = transmit-Agrees 5 500 (omega arith) (omega arith)

-- two numbers are skipped, and the server counts one as lost
last_is_missed : (count_all (transmit 5 10).numbers fresh).lost ≡ 1
unfolding transmit count_all
last_is_missed = refl
