-- ===== src/AsyncDatabase/Reachable.antt =====
-- Every interleaving of the owning thread and the worker in src/async_database.cpp.
use fsnet.Base.{
  none, some, if◌then◌else◌, sym, ◌≤◌, ap, arith, ◌∙◌, ◌≡◌, ℕ, [], ◌∷◌, ◌++◌, ◌+◌, Option, List,
  length,
}
use fsnet.Base.Errors.{Error}
use fsnet.AsyncDatabase.{
  Executor, StopMode, StorageLimits, submit, take_job, run_job, poll_one, begin_stop, end_stop,
}
use fsnet.AsyncDatabase.Pending.{completions, pending_jobs, Keeps, Apart}

-- The sizes of the jobs in all.
unfoldable pub total : List (ℕ × ℕ) → ℕ
total [] = 0
total ((completion, bytes) ∷ jobs) = bytes + total jobs

pub total-append : (xs ys : List (ℕ × ℕ)) → total (xs ++ ys) ≡ total xs + total ys
unfolding total
total-append [] ys = omega arith
total-append ((completion, bytes) ∷ xs) ys = omega (arith, total-append xs ys)

module _ (State : Type 0) where
  -- An executor with the completions and sizes of the jobs that it has accepted, and the completions
  -- that `poll` has called with what each was given, both in order.
  pub record World : Type 0 where
    pub executor : Executor State
    pub accepted : List (ℕ × ℕ)
    pub called : List (ℕ × Option Error)

  -- The call that a round of `poll` makes, if any.
  abbrev pub calls_of : Option (ℕ × Option Error) → List (ℕ × Option Error)
  calls_of none = []
  calls_of (some call) = call ∷ []

  -- The owning thread submits, polls and stops; the worker takes and runs jobs. `stop` takes hold of
  -- the queue, and returns when the worker has nothing left.
  pub data Step (w : World) : World → Type 0 where
    submits :
        (bytes completion : ℕ) (operation : State → Option Error × State)
        → Step w (record w {
          executor = (submit State bytes operation completion w.executor).1;
          accepted =
              w.accepted
              ++ (if (submit State bytes operation completion w.executor).0
                  then (completion, bytes) ∷ []
                  else []);
        })
    polls : Step w (record w {
      executor = (poll_one State w.executor).1;
      called = w.called ++ calls_of (poll_one State w.executor).0;
    })
    takes : w.executor.active ≡ [] → Step w (record w { executor = take_job State w.executor })
    runs : Step w (record w { executor = run_job State w.executor })
    begins :
        (mode : StopMode)
        → w.executor.abandoned ≡ []
        → Step w (record w { executor = begin_stop State mode w.executor })
    ends :
        w.executor.active ≡ []
        → w.executor.queued ≡ []
        → Step w (record w { executor = end_stop State w.executor })

  pub data Reaches (w : World) : World → Type 0 where
    here : Reaches w w
    next : {u v : World} → Reaches w u → Step u v → Reaches w v

  pub record IsOrdered (limits : StorageLimits) (w : World) : Type 0 where
    pub done : List (ℕ × ℕ)
    pub order : w.accepted ≡ done ++ pending_jobs State w.executor
    pub calls : completions w.called ≡ completions done
    pub count : w.executor.count ≡ length (pending_jobs State w.executor)
    pub bytes : w.executor.bytes ≡ total (pending_jobs State w.executor)
    pub jobs_max : w.executor.count ≤ limits.jobs
    pub bytes_max : w.executor.bytes ≤ limits.bytes
    pub limits_kept : w.executor.limits ≡ limits
    pub apart : Apart State w.executor

  pub kept :
      (limits : StorageLimits) (w : World) (t : Executor State)
      → IsOrdered limits w
      → Keeps State w.executor t
      → IsOrdered limits (record w { executor = t })
  kept limits w t i k = record {
    done = i.done;
    order = i.order ∙ ap (λ (l : List (ℕ × ℕ)). i.done ++ l) (sym k.pending);
    calls = i.calls;
    count = k.count ∙ i.count ∙ ap length (sym k.pending);
    bytes = k.bytes ∙ i.bytes ∙ ap total (sym k.pending);
    jobs_max = omega (arith, k.count, i.jobs_max);
    bytes_max = omega (arith, k.bytes, i.bytes_max);
    limits_kept = k.limits ∙ i.limits_kept;
    apart = k.apart;
  }
