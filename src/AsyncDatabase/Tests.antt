-- ===== src/AsyncDatabase/Tests.antt =====
-- The executor of src/async_database.cpp at concrete inputs.
use fsnet.Base.{refl, inl, List, arith, ◌≡◌, ℕ, [], ◌∷◌, ◌+◌, none, some, false, Option}
use fsnet.Base.Errors.{runtime_error, ok, Error}
use fsnet.AsyncDatabase.{
  take_job, run_job, poll_one, Job, Executor, StorageLimits, make_executor, submit, cancel_queued,
  stop, poll,
}
use fsnet.AsyncDatabase.Finished.{stop-poll}
use fsnet.AsyncDatabase.Ordered.{Reaches-IsOrdered, start-IsOrdered}
use fsnet.AsyncDatabase.Pending.{pending_jobs, completions}
use fsnet.AsyncDatabase.Reachable.{
  World, Reaches, IsOrdered, here, next, submits, takes, runs, polls,
}
use fsnet.AsyncDatabase.Stopped.{run_all, to_run}

-- An operation that adds to a number, and one that throws.
abbrev plus : ℕ → ℕ → Option Error × ℕ
plus n database = (none, database + n)

abbrev fails : ℕ → Option Error × ℕ
fails database = (some runtime_error, database)

abbrev limits : StorageLimits
limits = record { jobs = 3; bytes = 100 }

abbrev started : Executor ℕ
started = record {
  limits = limits;
  database = 5;
  queued = [];
  active = [];
  completed = [];
  abandoned = [];
  count = 0;
  bytes = 0;
  stopped = false;
  polling = false;
}

made : make_executor ℕ (some 5) limits ≡ ok started
unfolding make_executor
made = refl

abbrev first : World ℕ
first = record { executor = started; accepted = []; called = [] }

-- The job 2 is too large and is refused; the job 1 is called, the job 3 waits.
abbrev job : ℕ → ℕ → (ℕ → Option Error × ℕ) → Job ℕ
job completion bytes operation = record {
  bytes = bytes;
  operation = operation;
  completion = completion;
  error = none;
}

abbrev later : World ℕ
later = record {
  executor = record started { database = 12; queued = job 3 30 fails ∷ []; count = 1; bytes = 30 };
  accepted = (1, 60) ∷ (3, 30) ∷ [];
  called = (1, none) ∷ [];
}

later_reached : Reaches ℕ first later
unfolding submit take_job run_job poll_one
later_reached =
    next
      (next
        (next
          (next (next (next here (submits 60 1 (plus 7))) (submits 50 2 fails))
            (submits 30 3 fails))
          (takes refl))
        runs)
      polls

Reaches-IsOrdered_example : IsOrdered ℕ limits later
Reaches-IsOrdered_example =
    Reaches-IsOrdered ℕ limits (omega arith) (start-IsOrdered ℕ 5 limits started made) later_reached

abbrev busy : Executor ℕ
busy = record started {
  active = job 1 60 (plus 7) ∷ [];
  queued = job 3 30 fails ∷ [];
  count = 2;
  bytes = 90;
}

stop-poll_example :
    ((stop ℕ cancel_queued busy).database ≡ run_all ℕ (to_run ℕ cancel_queued busy) 5)
    × ((r : List (ℕ × Option Error) × Executor ℕ) × (poll ℕ 2 (stop ℕ cancel_queued busy) ≡ ok r)
        × (completions r.0 ≡ 1 ∷ 3 ∷ [])
        × (pending_jobs ℕ r.1 ≡ []))
stop-poll_example =
    stop-poll ℕ cancel_queued 2 busy refl
      (record { one = omega arith; open_queue = λ running. refl; apart = inl refl }) refl
      (omega arith)
