-- ===== src/AsyncDatabase/Ordered.antt =====
-- The jobs of the executor in src/async_database.cpp stay in order in every reachable world.
use fsnet.Base.{
  some, true, false, inl, ◌||◌, ◌==◌, refl, Bool, none, ◌^◌, ◌<◌, if◌then◌else◌, sym, ◌≤◌, ap,
  arith, ◌∙◌, ◌≡◌, ℕ, [], ◌∷◌, ◌++◌, ◌+◌, Option, List, length,
}
use fsnet.Base.Errors.{ok-subst, invalid_argument, err, ok, Error}
use fsnet.Base.Lists.{length-append}
use fsnet.AsyncDatabase.{
  make_executor, poll_from, refuses, Job, Executor, StorageLimits, submit, poll_one,
}
use fsnet.AsyncDatabase.Pending.{
  completions-append, shape, pending-submit, Keeps-end_stop, Keeps-begin_stop, Keeps-run_job,
  Keeps-take_job, pending_jobs, Apart,
}
use fsnet.AsyncDatabase.Reachable.{
  total, total-append, World, calls_of, Step, submits, polls, takes, runs, begins, ends, Reaches,
  here, next, IsOrdered, kept,
}
use mathlib.Core.List.{append-nil, append_assoc}

module _ (State : Type 0) where
  submit-Apart :
      (bytes completion : ℕ) (operation : State → Option Error × State) (s : Executor State)
      → refuses State bytes s ≡ false
      → Apart State s
      → Apart State (record s {
        queued =
            s.queued
            ++ (record {
              bytes = bytes;
              operation = operation;
              completion = completion;
              error = none;
            }
                ∷ []);
        count = s.count + 1;
        bytes = s.bytes + bytes;
      })
  unfolding refuses
  submit-Apart bytes completion operation s room a = record {
    one = a.one;
    open_queue = a.open_queue;
    apart = inl (a.open_queue (ground (arith, room)));
  }

  room_left :
      (bytes : ℕ) (s : Executor State) (limits : StorageLimits)
      → refuses State bytes s ≡ false
      → s.limits ≡ limits
      → limits.bytes < 2 ^ 64
      → s.bytes ≤ limits.bytes
      → (s.count + 1 ≤ limits.jobs) × (s.bytes + bytes ≤ limits.bytes)
  unfolding refuses
  room_left bytes s limits room e word small =
      let test = rw e at room in (ground (arith, test), ground (arith, test, word, small))

  submitted :
      (limits : StorageLimits) (w : World State) (bytes completion : ℕ)
      (operation : State → Option Error × State)
      → limits.bytes < 2 ^ 64
      → IsOrdered State limits w
      → IsOrdered State limits (record w {
        executor = (submit State bytes operation completion w.executor).1;
        accepted =
            w.accepted
            ++ (if (submit State bytes operation completion w.executor).0
                then (completion, bytes) ∷ []
                else []);
      })
  unfolding submit total
  submitted limits w bytes completion operation word i = by (refuses State bytes w.executor) refl
    where
      by :
          (full : Bool)
          → refuses State bytes w.executor ≡ full
          → IsOrdered State limits (record w {
            executor = (submit State bytes operation completion w.executor).1;
            accepted =
                w.accepted
                ++ (if (submit State bytes operation completion w.executor).0
                    then (completion, bytes) ∷ []
                    else []);
          })
      by true e = rw (e, append-nil w.accepted) i
      by false e =
          let last : List (ℕ × ℕ) = (completion, bytes) ∷ [] in
          let now = rw e at (pending-submit State bytes operation completion w.executor) in
          let (jobs, sizes) = room_left bytes w.executor limits e i.limits_kept word i.bytes_max in
          rw e (record {
            done = i.done;
            order =
                ap (λ (l : List (ℕ × ℕ)). l ++ last) i.order
                ∙ append_assoc i.done (pending_jobs State w.executor) last
                ∙ ap (λ (l : List (ℕ × ℕ)). i.done ++ l) (sym now);
            calls = i.calls;
            count =
                omega (
                  arith,
                  i.count,
                  ap length now,
                  length-append (pending_jobs State w.executor) last,
                );
            bytes =
                omega
                  (arith, i.bytes, ap total now, total-append (pending_jobs State w.executor) last);
            jobs_max = jobs;
            bytes_max = sizes;
            limits_kept = i.limits_kept;
            apart = submit-Apart bytes completion operation w.executor e i.apart;
          })

  polled :
      (limits : StorageLimits) (w : World State) (completed : List (Job State))
      → w.executor.completed ≡ completed
      → IsOrdered State limits w
      → IsOrdered State limits (record w {
        executor = (poll_from State completed w.executor).1;
        called = w.called ++ calls_of State (poll_from State completed w.executor).0;
      })
  unfolding poll_from total
  polled limits w [] e i = rw (append-nil w.called) i
  polled limits w (job ∷ completed) e i =
      let s = w.executor in
      let rest =
        shape State completed
        ++ (shape State s.active ++ (shape State s.abandoned ++ shape State s.queued)) in
      let now : pending_jobs State s ≡ (job.completion, job.bytes) ∷ rest = rw e refl in
      record {
        done = i.done ++ ((job.completion, job.bytes) ∷ []);
        order =
            i.order
            ∙ ap (λ (l : List (ℕ × ℕ)). i.done ++ l) now
            ∙ sym (append_assoc i.done ((job.completion, job.bytes) ∷ []) rest);
        calls =
            completions-append w.called ((job.completion, job.error) ∷ [])
            ∙ ap (λ (l : List ℕ). l ++ (job.completion ∷ [])) i.calls
            ∙ sym (completions-append i.done ((job.completion, job.bytes) ∷ []));
        count = omega (arith, i.count, ap length now);
        bytes = omega (arith, i.bytes, ap total now);
        jobs_max = omega (arith, i.jobs_max);
        bytes_max = omega (arith, i.bytes_max);
        limits_kept = i.limits_kept;
        apart = record {
          one = i.apart.one;
          open_queue = i.apart.open_queue;
          apart = i.apart.apart;
        };
      }

  -- As long as the executor lives, whatever the owning thread and the worker do: the completions
  -- that the rounds of `poll` have returned to be called are those of the first accepted jobs, once
  -- each and in the order of acceptance, and the other accepted jobs are pending, in that order; the
  -- counters are those of the pending jobs and stay within the limits. The limit on bytes is a
  -- std::size_t.
  pub Reaches-IsOrdered :
      (limits : StorageLimits) {w v : World State}
      → limits.bytes < 2 ^ 64
      → IsOrdered State limits w
      → Reaches State w v
      → IsOrdered State limits v
  unfolding poll_one
  Reaches-IsOrdered limits word i here = i
  Reaches-IsOrdered limits word i (next {u = u} r st) =
      let j = Reaches-IsOrdered limits word i r in by st j
    where
      by :
          {u v : World State} → Step State u v → IsOrdered State limits u → IsOrdered State limits v
      by {u} (submits bytes completion operation) j =
          submitted limits u bytes completion operation word j
      by {u} polls j = polled limits u u.executor.completed refl j
      by {u} (takes idle) j = kept State limits u _ j (Keeps-take_job State u.executor idle j.apart)
      by {u} runs j = kept State limits u _ j (Keeps-run_job State u.executor j.apart)
      by {u} (begins mode none_abandoned) j =
          kept State limits u _ j (Keeps-begin_stop State mode u.executor none_abandoned j.apart)
      by {u} (ends idle empty) j =
          kept State limits u _ j (Keeps-end_stop State u.executor idle empty j.apart)

  -- A new executor.
  pub start-IsOrdered :
      (database : State) (limits : StorageLimits) (s : Executor State)
      → make_executor State (some database) limits ≡ ok s
      → IsOrdered State limits (record { executor = s; accepted = []; called = [] })
  unfolding make_executor total
  start-IsOrdered database limits s h = by (limits.jobs == 0 || limits.bytes == 0) h
    where
      fresh : Executor State
      fresh = record {
        limits = limits;
        database = database;
        queued = [];
        active = [];
        completed = [];
        abandoned = [];
        count = 0;
        bytes = 0;
        stopped = false;
        polling = false;
      }

      by :
          (bad : Bool)
          → (if bad then err invalid_argument else ok fresh) ≡ ok s
          → IsOrdered State limits (record { executor = s; accepted = []; called = [] })
      by true e = cc
      by false e =
          ok-subst
            (λ t. IsOrdered State limits (record { executor = t; accepted = []; called = [] })) e
            (record {
              done = [];
              order = refl;
              calls = refl;
              count = refl;
              bytes = refl;
              jobs_max = omega arith;
              bytes_max = omega arith;
              limits_kept = refl;
              apart = record { one = omega arith; open_queue = λ running. refl; apart = inl refl };
            })
