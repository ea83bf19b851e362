-- ===== src/AsyncDatabase/Stopped.antt =====
-- `stop` of src/async_database.cpp, and the polls after it.
use fsnet.Base.{arith, sym, ◌≤◌, ap, ◌∙◌, true, refl, length, ◌≡◌, List, [], ◌∷◌, ◌++◌}
use fsnet.AsyncDatabase.{
  Job, Executor, StopMode, drain, cancel_queued, take_from, take_job, run_from, run_job, begin_stop,
  end_stop, join_worker, stop,
}
use fsnet.AsyncDatabase.Pending.{
  Keeps-trans, Apart, Keeps, Keeps-take_job, Keeps-run_job, Keeps-begin_stop, Keeps-end_stop,
}

module _ (State : Type 0) where
  -- The database after the operations of the jobs, one after the other.
  unfoldable pub run_all : List (Job State) → State → State
  run_all [] database = database
  run_all (job ∷ jobs) database = run_all jobs (job.operation database).1

  -- The jobs that `stop` still runs.
  abbrev pub to_run : StopMode → Executor State → List (Job State)
  to_run drain s = s.active ++ s.queued
  to_run cancel_queued s = s.active

  -- The worker is done with its work.
  pub record Drained (s t : Executor State) (jobs : List (Job State)) : Type 0 where
    pub idle : t.active ≡ []
    pub empty : t.queued ≡ []
    pub database : t.database ≡ run_all jobs s.database
    pub keeps : Keeps State s t
    pub stopped : t.stopped ≡ s.stopped
    pub polling : t.polling ≡ s.polling

  -- One round of the worker's loop with a job in the queue.
  record Passed (s t : Executor State) (job : Job State) (queue : List (Job State)) : Type 0 where
    pub idle : t.active ≡ []
    pub left : t.queued ≡ queue
    pub database : t.database ≡ (job.operation s.database).1
    pub stopped : t.stopped ≡ s.stopped
    pub polling : t.polling ≡ s.polling

  pass-Passed :
      (job : Job State) (queue : List (Job State)) (s : Executor State)
      → s.queued ≡ job ∷ queue
      → Passed s (run_job State (take_job State s)) job queue
  unfolding take_job take_from run_job run_from
  pass-Passed job queue s e = record {
    idle = rw e refl;
    left = rw e refl;
    database = rw e refl;
    stopped = rw e refl;
    polling = rw e refl;
  }

  join_worker-Drained :
      (queue : List (Job State)) (s : Executor State)
      → s.queued ≡ queue
      → s.active ≡ []
      → Apart State s
      → Drained s (join_worker State (length queue) s) queue
  unfolding join_worker run_all
  join_worker-Drained [] s e idle a = record {
    idle = idle;
    empty = e;
    database = refl;
    keeps = record { pending = refl; apart = a; limits = refl; count = refl; bytes = refl };
    stopped = refl;
    polling = refl;
  }
  join_worker-Drained (job ∷ queue) s e idle a =
      let taken = Keeps-take_job State s idle a in
      let keeps = Keeps-trans State taken (Keeps-run_job State (take_job State s) taken.apart) in
      let p = pass-Passed job queue s e in
      let d =
        join_worker-Drained queue (run_job State (take_job State s)) p.left p.idle keeps.apart in
      record {
        idle = d.idle;
        empty = d.empty;
        database = d.database ∙ ap (run_all queue) p.database;
        keeps = Keeps-trans State keeps d.keeps;
        stopped = d.stopped ∙ p.stopped;
        polling = d.polling ∙ p.polling;
      }

  run_all-append :
      (xs ys : List (Job State)) (database : State)
      → run_all (xs ++ ys) database ≡ run_all ys (run_all xs database)
  unfolding run_all
  run_all-append [] ys database = refl
  run_all-append (job ∷ xs) ys database = run_all-append xs ys (job.operation database).1

  -- The job that the worker has taken is run.
  record Finished (s t : Executor State) (active : List (Job State)) : Type 0 where
    pub idle : t.active ≡ []
    pub left : t.queued ≡ s.queued
    pub database : t.database ≡ run_all active s.database
    pub stopped : t.stopped ≡ s.stopped
    pub polling : t.polling ≡ s.polling

  Finished-run_from :
      (active : List (Job State)) (s : Executor State)
      → s.active ≡ active
      → length active ≤ 1
      → Finished s (run_from State active s) active
  unfolding run_from run_all
  Finished-run_from [] s e one = record {
    idle = e;
    left = refl;
    database = refl;
    stopped = refl;
    polling = refl;
  }
  Finished-run_from (job ∷ []) s e one = record {
    idle = refl;
    left = refl;
    database = refl;
    stopped = refl;
    polling = refl;
  }
  Finished-run_from (job ∷ second ∷ rest) s e one = absurd (omega (arith, one))

  Finished-run_job : (s : Executor State) → Apart State s → Finished s (run_job State s) s.active
  unfolding run_job
  Finished-run_job s a = Finished-run_from s.active s refl a.one

  begun_database :
      (mode : StopMode) (s : Executor State)
      → run_all
          (begin_stop State mode s).queued
          (run_all (begin_stop State mode s).active (begin_stop State mode s).database)
        ≡ run_all (to_run mode s) s.database
  unfolding begin_stop run_all
  begun_database drain s = sym (run_all-append s.active s.queued s.database)
  begun_database cancel_queued s = refl

  begun_stopped : (mode : StopMode) (s : Executor State) → (begin_stop State mode s).stopped ≡ true
  unfolding begin_stop
  begun_stopped drain s = refl
  begun_stopped cancel_queued s = refl

  begun_polling :
      (mode : StopMode) (s : Executor State) → (begin_stop State mode s).polling ≡ s.polling
  unfolding begin_stop
  begun_polling drain s = refl
  begun_polling cancel_queued s = refl

  -- What `stop` leaves behind.
  pub record Stopped (mode : StopMode) (s t : Executor State) : Type 0 where
    pub idle : t.active ≡ []
    pub empty : t.queued ≡ []
    pub none_abandoned : t.abandoned ≡ []
    pub stopped : t.stopped ≡ true
    pub polling : t.polling ≡ s.polling
    pub database : t.database ≡ run_all (to_run mode s) s.database
    pub keeps : Keeps State s t

  pub stop-Stopped :
      (mode : StopMode) (s : Executor State)
      → s.abandoned ≡ []
      → Apart State s
      → Stopped mode s (stop State mode s)
  unfolding stop end_stop
  stop-Stopped mode s none_abandoned a =
      let b = begin_stop State mode s in
      let begun = Keeps-begin_stop State mode s none_abandoned a in
      let f = Finished-run_job b begun.apart in
      let run = Keeps-trans State begun (Keeps-run_job State b begun.apart) in
      let d =
        join_worker-Drained (run_job State b).queued (run_job State b) refl f.idle run.apart in
      let t = join_worker State (length (run_job State b).queued) (run_job State b) in
      let joined = Keeps-trans State run d.keeps in
      record {
        idle = d.idle;
        empty = d.empty;
        none_abandoned = refl;
        stopped = d.stopped ∙ f.stopped ∙ begun_stopped mode s;
        polling = d.polling ∙ f.polling ∙ begun_polling mode s;
        database =
            d.database
            ∙ ap (λ q. run_all q (run_job State b).database) f.left
            ∙ ap (run_all b.queued) f.database
            ∙ begun_database mode s;
        keeps = Keeps-trans State joined (Keeps-end_stop State t d.idle d.empty joined.apart);
      }
