-- ===== src/Worker/Tests.antt =====
-- Runs of the worker of internal/rabbitmq/rabbitmq.go, and its theorem at a concrete input.
use aegis_ai_platform.Prelude.{
  ℕ, ◌+◌, pos, ◌+ℤ◌, int64, text, text_eq, text_beq, Bool, true, [], some, ◌≡◌, refl, arith,
}
use aegis_ai_platform.Errors.{ok, err, plain}
use aegis_ai_platform.Worker.{
  Job, Store, dropped, deliver, process, settle, after_mark, after_load, retry, max_attempts,
}
use aegis_ai_platform.Worker.Attempts.{Ends, deliver-Ends}

-- A store whose sources are missing, and which counts the failures.
abbrev missing : Store ℕ
missing = record {
  mark_running = λ tenant id n. (ok tt, n);
  load = λ tenant id n. (err (plain "no rows in result set"), n);
  complete = λ tenant id execution results n. (ok tt, n);
  fail = λ tenant id category permanent n. (ok tt, n + 1);
}

abbrev job : Job
job = record {
  job_id = text "j1";
  tenant_id = text "t1";
  execution_id = text "e1";
  job_type = text "quality";
  correlation_id = text "c1";
  attempt = pos 0;
}

abbrev confirmed : ℕ → Bool
confirmed n = true

-- Three attempts, each of them a failure of the job.
three_attempts : (deliver missing (max_attempts (pos 0)) [] 3 confirmed 0 job 0) ≡ some (dropped, 3)
unfolding deliver settle process after_mark after_load retry max_attempts ◌+ℤ◌ int64 text_beq
three_attempts = refl

deliver-Ends_example : Ends missing (pos 3) [] (deliver missing (pos 3) [] 3 confirmed 0 job 0)
unfolding ◌+ℤ◌
deliver-Ends_example =
    deliver-Ends missing (pos 3) [] confirmed 2 0 job 0 (λ k. refl) (omega arith, omega arith)
      (omega arith, omega arith) (omega arith) (omega arith)
