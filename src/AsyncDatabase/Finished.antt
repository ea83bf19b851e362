-- ===== src/AsyncDatabase/Finished.antt =====
-- After `stop` of src/async_database.cpp a poll calls what is left.
use fsnet.Base.{
  refl, sym, ap, ◌-◌, ◌∙◌, arith, ◌≤◌, false, length, Option, ◌≡◌, ℕ, zero, suc, [], ◌∷◌, List,
}
use fsnet.Base.Errors.{ok, Error}
use fsnet.AsyncDatabase.{Job, Executor, StopMode, poll_from, poll_one, stop, poll, poll_loop}
use fsnet.AsyncDatabase.Pending.{completions, pending_jobs, shape, Apart}
use fsnet.AsyncDatabase.Stopped.{run_all, to_run, stop-Stopped}
use mathlib.Core.List.{append-nil}

module _ (State : Type 0) where
  record IsIdle (s : Executor State) : Type 0 where
    pub idle : s.active ≡ []
    pub empty : s.queued ≡ []
    pub none_abandoned : s.abandoned ≡ []

  record Polled (jobs : List (Job State)) (r : List (ℕ × Option Error) × Executor State)
      : Type 0 where
    pub calls : completions r.0 ≡ completions (shape State jobs)
    pub left : pending_jobs State r.1 ≡ []

  length-shape : (jobs : List (Job State)) → length (shape State jobs) ≡ length jobs
  length-shape [] = refl
  length-shape (job ∷ jobs) = omega (arith, length-shape jobs)

  poll_loop-Polled :
      (budget : ℕ) (jobs : List (Job State)) (s : Executor State)
      → s.completed ≡ jobs
      → IsIdle s
      → length jobs ≤ budget
      → Polled jobs (poll_loop State budget s)
  unfolding poll_loop poll_one poll_from
  poll_loop-Polled zero [] s e i room = record {
    calls = refl;
    left = rw (e, i.idle, i.empty, i.none_abandoned) refl;
  }
  poll_loop-Polled zero (job ∷ jobs) s e i room = absurd (omega (arith, room))
  poll_loop-Polled (suc budget) [] s e i room =
      rw e (record { calls = refl; left = rw (i.idle, i.empty, i.none_abandoned) refl })
  poll_loop-Polled (suc budget) (job ∷ jobs) s e i room =
      let rest =
        poll_loop-Polled budget jobs
          (record s { completed = jobs; count = s.count - 1; bytes = s.bytes - job.bytes }) refl
          (record { idle = i.idle; empty = i.empty; none_abandoned = i.none_abandoned })
          (omega (arith, room)) in
      rw e (record { calls = ap (λ l. job.completion ∷ l) rest.calls; left = rest.left })

  -- When `stop` returns, the worker has run the job that it had and, unless the queue is cancelled,
  -- all that were queued, in order, and nothing else; a poll with a budget for the jobs that were
  -- pending then calls all their completions, in order, and leaves none.
  pub stop-poll :
      (mode : StopMode) (budget : ℕ) (s : Executor State)
      → s.abandoned ≡ []
      → Apart State s
      → s.polling ≡ false
      → length (pending_jobs State s) ≤ budget
      → ((stop State mode s).database ≡ run_all State (to_run State mode s) s.database)
        × ((r : List (ℕ × Option Error) × Executor State) × (poll State budget (stop State mode s)
              ≡ ok r)
            × (completions r.0 ≡ completions (pending_jobs State s))
            × (pending_jobs State r.1 ≡ []))
  unfolding poll
  stop-poll mode budget s none_abandoned a quiet room =
      let st = stop-Stopped State mode s none_abandoned a in
      let t = stop State mode s in
      let all : pending_jobs State t ≡ shape State t.completed =
        rw (st.idle, st.empty, st.none_abandoned) (append-nil (shape State t.completed)) in
      let p =
        poll_loop-Polled budget t.completed t refl
          (record { idle = st.idle; empty = st.empty; none_abandoned = st.none_abandoned })
          (omega
            (arith, room, ap length all, ap length st.keeps.pending, length-shape t.completed)) in
      (
        st.database,
        (
          poll_loop State budget t,
          rw (st.polling ∙ quiet) refl,
          p.calls ∙ ap completions (sym all ∙ st.keeps.pending),
          p.left,
        ),
      )
