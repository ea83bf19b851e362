-- ===== src/AsyncDatabase.antt =====
-- src/async_database.cpp with include/fsnet/async_database.hpp: the queue of storage operations that
-- one worker thread runs, and whose completions the owning thread polls.
pub mod Pending
pub mod Reachable
pub mod Ordered
pub mod Stopped
pub mod Finished
mod Tests
use fsnet.Base.{
  ◌%◌, ◌^◌, ◌==◌, ◌||◌, if◌then◌else◌, length, Bool, List, Option, false, true, ok, err, zero, suc,
  ℕ, ◌+◌, ◌-◌, none, some, [], ◌∷◌, ◌++◌,
}
use fsnet.Base.Errors.{logic_error, invalid_argument, runtime_error, Error, Outcome}
use fsnet.Base.Tests.{ltb, leb}

-- `StorageLimits`
pub record StorageLimits : Type 0 where
  pub jobs : ℕ
  pub bytes : ℕ

-- `StopMode`
pub data StopMode : Type 0 where
  drain cancel_queued : StopMode

-- What is left of a program where the mutex is free: the members of `Impl`, the job that the worker
-- has taken and the jobs that a running `stop` has taken.
module _ (State : Type 0) where
  -- An operation returns or throws, and a completion is known by a number.
  pub record Job : Type 0 where
    pub bytes : ℕ
    pub operation : State → Option Error × State
    pub completion : ℕ
    pub error : Option Error

  pub record Executor : Type 0 where
    pub limits : StorageLimits
    pub database : State
    pub queued : List Job
    pub active : List Job
    pub completed : List Job
    pub abandoned : List Job
    pub count : ℕ
    pub bytes : ℕ
    pub stopped : Bool
    pub polling : Bool

  -- the constructor; `none` is a null pointer to the storage
  unfoldable pub make_executor : Option State → StorageLimits → Outcome Executor
  make_executor none limits = err invalid_argument
  make_executor (some database) limits =
      if limits.jobs == 0 || limits.bytes == 0
      then err invalid_argument
      else ok (record {
        limits = limits;
        database = database;
        queued = [];
        active = [];
        completed = [];
        abandoned = [];
        count = 0;
        bytes = 0;
        stopped = false;
        polling = false;
      })

  -- The test of `submit`; its subtraction is that of std::size_t.
  unfoldable pub refuses : ℕ → Executor → Bool
  refuses bytes s =
      s.stopped
      || leb s.limits.jobs s.count
      || ltb ((s.limits.bytes + 2 ^ 64 - s.bytes) % 2 ^ 64) bytes

  -- `submit` under the mutex, with callbacks that are not null
  unfoldable pub submit : ℕ → (State → Option Error × State) → ℕ → Executor → Bool × Executor
  unfolding refuses
  submit bytes operation completion s = if refuses bytes s then (false, s) else (
    true,
    record s {
      queued =
          s.queued
          ++ (record { bytes = bytes; operation = operation; completion = completion; error = none }
              ∷ []);
      count = s.count + 1;
      bytes = s.bytes + bytes;
    },
  )

  -- `submit` with its test; `none` is a null callback.
  unfoldable pub submit_callbacks :
      ℕ → Option (State → Option Error × State) → Option ℕ → Executor → Outcome (Bool × Executor)
  unfolding submit
  submit_callbacks bytes (some operation) (some completion) s =
      ok (submit bytes operation completion s)
  submit_callbacks bytes none completion s = err invalid_argument
  submit_callbacks bytes (some operation) none s = err invalid_argument

  -- The worker takes the first job of the queue.
  unfoldable pub take_from : List Job → Executor → Executor
  take_from [] s = s
  take_from (job ∷ queued) s = record s { queued = queued; active = job ∷ [] }

  unfoldable pub take_job : Executor → Executor
  unfolding take_from
  take_job s = take_from s.queued s

  -- The worker runs the job that it has taken and hands it over.
  unfoldable pub run_from : List Job → Executor → Executor
  run_from [] s = s
  run_from (job ∷ rest) s =
      let result = job.operation s.database in
      record s {
        database = result.1;
        active = rest;
        completed = s.completed ++ (record job { error = result.0 } ∷ []);
      }

  unfoldable pub run_job : Executor → Executor
  unfolding run_from
  run_job s = run_from s.active s

  -- One round of the loop of `poll`: the completion that is called, with what it is given.
  unfoldable pub poll_from : List Job → Executor → Option (ℕ × Option Error) × Executor
  poll_from [] s = (none, s)
  poll_from (job ∷ completed) s = (
    some (job.completion, job.error),
    record s { completed = completed; count = s.count - 1; bytes = s.bytes - job.bytes },
  )

  unfoldable pub poll_one : Executor → Option (ℕ × Option Error) × Executor
  unfolding poll_from
  poll_one s = poll_from s.completed s

  unfoldable pub cancel : List Job → List Job
  cancel [] = []
  cancel (job ∷ jobs) = record job { error = some runtime_error } ∷ cancel jobs

  -- The first half of `stop`, up to the joining of the worker.
  unfoldable pub begin_stop : StopMode → Executor → Executor
  unfolding cancel
  begin_stop drain s = record s { stopped = true }
  begin_stop cancel_queued s = record s { stopped = true; queued = []; abandoned = cancel s.queued }

  -- The second half of `stop`.
  unfoldable pub end_stop : Executor → Executor
  end_stop s = record s { completed = s.completed ++ s.abandoned; abandoned = [] }

  -- The worker after `stop` was called, until it returns: `passes` rounds of its loop.
  unfoldable pub join_worker : ℕ → Executor → Executor
  unfolding take_job run_job
  join_worker zero s = s
  join_worker (suc passes) s = join_worker passes (run_job (take_job s))

  -- `stop`: the job that runs is finished, and then the worker drains what is queued.
  unfoldable pub stop : StopMode → Executor → Executor
  unfolding begin_stop end_stop join_worker
  stop mode s = let t = run_job (begin_stop mode s) in end_stop (join_worker (length t.queued) t)

  -- The loop of `poll`, where the completions leave the executor alone; the completions that it
  -- calls.
  unfoldable pub poll_loop : ℕ → Executor → List (ℕ × Option Error) × Executor
  unfolding poll_one
  poll_loop zero s = ([], s)
  poll_loop (suc budget) s =
      let (call, t) = poll_one s in
      let rest = poll_loop budget t in elim call [ none ↦ ([], s) | some c ↦ (c ∷ rest.0, rest.1) ]

  unfoldable pub poll : ℕ → Executor → Outcome (List (ℕ × Option Error) × Executor)
  unfolding poll_loop
  poll budget s = if s.polling then err logic_error else ok (poll_loop budget s)
