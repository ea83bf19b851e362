-- ===== src/AsyncDatabase/Pending.antt =====
-- What each step of the executor in src/async_database.cpp does to the jobs that are pending.
use fsnet.Base.{
  ◌∙◌, none, sym, if◌then◌else◌, Option, arith, inl, inr, ◌⊎◌, refl, ◌≤◌, ap, ◌≡◌, ℕ, [], ◌∷◌, ◌++◌,
  length, List, false,
}
use fsnet.Base.Errors.{Error}
use fsnet.Base.Tests.{Bool-cases}
use fsnet.AsyncDatabase.{
  drain, cancel_queued, StopMode, take_from, run_from, submit, refuses, Job, Executor, take_job,
  run_job, begin_stop, end_stop, cancel,
}
use mathlib.Core.List.{append_assoc, append-nil}

-- The completions of a list of jobs or of calls.
abbrev pub completions {ℓ} : {A : Type ℓ} → List (ℕ × A) → List ℕ
completions [] = []
completions ((completion, a) ∷ rest) = completion ∷ completions rest

pub completions-append {ℓ} :
    {A : Type ℓ} (xs ys : List (ℕ × A)) → completions (xs ++ ys) ≡ completions xs ++ completions ys
completions-append [] ys = refl
completions-append ((completion, a) ∷ xs) ys =
    ap (λ (l : List ℕ). completion ∷ l) (completions-append xs ys)

module _ (State : Type 0) where
  -- The completion and the size of each job.
  abbrev pub shape : List (Job State) → List (ℕ × ℕ)
  shape [] = []
  shape (job ∷ jobs) = (job.completion, job.bytes) ∷ shape jobs

  shape-append : (xs ys : List (Job State)) → shape (xs ++ ys) ≡ shape xs ++ shape ys
  shape-append [] ys = refl
  shape-append (job ∷ xs) ys = ap (λ l. (job.completion, job.bytes) ∷ l) (shape-append xs ys)

  shape-cancel : (jobs : List (Job State)) → shape (cancel State jobs) ≡ shape jobs
  unfolding cancel
  shape-cancel [] = refl
  shape-cancel (job ∷ jobs) = ap (λ l. (job.completion, job.bytes) ∷ l) (shape-cancel jobs)

  -- The jobs in the order in which their completions will be called.
  abbrev pub pending_jobs : Executor State → List (ℕ × ℕ)
  pending_jobs s = shape s.completed ++ (shape s.active ++ (shape s.abandoned ++ shape s.queued))

  -- The worker holds at most one job, and a `stop` that has taken jobs left none in the queue.
  pub record Apart (s : Executor State) : Type 0 where
    pub one : length s.active ≤ 1
    pub open_queue : s.stopped ≡ false → s.abandoned ≡ []
    pub apart : (s.abandoned ≡ []) ⊎ (s.queued ≡ [])

  -- One step keeps what is pending, and the jobs apart.
  pub record Keeps (s t : Executor State) : Type 0 where
    pub pending : pending_jobs t ≡ pending_jobs s
    pub apart : Apart t
    pub limits : t.limits ≡ s.limits
    pub count : t.count ≡ s.count
    pub bytes : t.bytes ≡ s.bytes

  pub Keeps-trans : {s t u : Executor State} → Keeps s t → Keeps t u → Keeps s u
  Keeps-trans k l = record {
    pending = l.pending ∙ k.pending;
    apart = l.apart;
    limits = l.limits ∙ k.limits;
    count = l.count ∙ k.count;
    bytes = l.bytes ∙ k.bytes;
  }

  not_abandoned :
      (s : Executor State) (job : Job State) (queue : List (Job State))
      → s.queued ≡ job ∷ queue
      → Apart s
      → s.abandoned ≡ []
  not_abandoned s job queue e a = elim a.apart [ inl empty ↦ empty | inr empty ↦ cc ]

  Keeps-take_from :
      (queue : List (Job State)) (s : Executor State)
      → s.queued ≡ queue
      → s.active ≡ []
      → Apart s
      → Keeps s (take_from State queue s)
  unfolding take_from
  Keeps-take_from [] s e idle a = record {
    pending = refl;
    apart = a;
    limits = refl;
    count = refl;
    bytes = refl;
  }
  Keeps-take_from (job ∷ queue) s e idle a =
      let none_abandoned = not_abandoned s job queue e a in
      record {
        pending = rw (idle, e, none_abandoned) refl;
        apart = record { one = omega arith; open_queue = a.open_queue; apart = inl none_abandoned };
        limits = refl;
        count = refl;
        bytes = refl;
      }

  Keeps-run_from :
      (active : List (Job State)) (s : Executor State)
      → s.active ≡ active
      → Apart s
      → Keeps s (run_from State active s)
  unfolding run_from
  Keeps-run_from [] s e a = record {
    pending = refl;
    apart = a;
    limits = refl;
    count = refl;
    bytes = refl;
  }
  Keeps-run_from (job ∷ rest) s e a = record {
    pending =
        rw (e, shape-append s.completed (record job { error = (job.operation s.database).0 } ∷ []))
          (append_assoc (shape s.completed) _ _);
    apart = record {
      one = omega (arith, a.one, ap length e);
      open_queue = a.open_queue;
      apart = a.apart;
    };
    limits = refl;
    count = refl;
    bytes = refl;
  }

  pub Keeps-take_job : (s : Executor State) → s.active ≡ [] → Apart s → Keeps s (take_job State s)
  unfolding take_job
  Keeps-take_job s idle a = Keeps-take_from s.queued s refl idle a

  pub Keeps-run_job : (s : Executor State) → Apart s → Keeps s (run_job State s)
  unfolding run_job
  Keeps-run_job s a = Keeps-run_from s.active s refl a

  pub Keeps-begin_stop :
      (mode : StopMode) (s : Executor State)
      → s.abandoned ≡ []
      → Apart s
      → Keeps s (begin_stop State mode s)
  unfolding begin_stop
  Keeps-begin_stop drain s none_abandoned a = record {
    pending = refl;
    apart = record { one = a.one; open_queue = λ e. none_abandoned; apart = a.apart };
    limits = refl;
    count = refl;
    bytes = refl;
  }
  Keeps-begin_stop cancel_queued s none_abandoned a = record {
    pending = rw (none_abandoned, shape-cancel s.queued, append-nil (shape s.queued)) refl;
    apart = record { one = a.one; open_queue = λ e. cc; apart = inr refl };
    limits = refl;
    count = refl;
    bytes = refl;
  }

  pub Keeps-end_stop :
      (s : Executor State) → s.active ≡ [] → s.queued ≡ [] → Apart s → Keeps s (end_stop State s)
  unfolding end_stop
  Keeps-end_stop s idle empty a = record {
    pending =
        rw
          (
            idle,
            empty,
            shape-append s.completed s.abandoned,
            append-nil (shape s.abandoned),
            append-nil (shape s.completed ++ shape s.abandoned),
          )
          refl;
    apart = record { one = a.one; open_queue = λ e. refl; apart = inl refl };
    limits = refl;
    count = refl;
    bytes = refl;
  }

  -- A job that `submit` takes is the last one pending; one that it refuses changes nothing.
  pub pending-submit :
      (bytes : ℕ) (operation : State → Option Error × State) (completion : ℕ) (s : Executor State)
      → pending_jobs (submit State bytes operation completion s).1
        ≡ pending_jobs s
          ++ (if (submit State bytes operation completion s).0
              then (completion, bytes) ∷ []
              else [])
  unfolding submit
  pending-submit bytes operation completion s = elim (Bool-cases (refuses State bytes s)) [
    | inl full ↦ rw full (sym (append-nil (pending_jobs s)))
    | inr room ↦
        let here : Job State = record {
          bytes = bytes;
          operation = operation;
          completion = completion;
          error = none;
        } in
        rw room (
          rw
            (
              shape-append s.queued (here ∷ []),
              append_assoc (shape s.completed)
                  (shape s.active ++ (shape s.abandoned ++ shape s.queued)) (shape (here ∷ [])),
              append_assoc (shape s.active) (shape s.abandoned ++ shape s.queued)
                  (shape (here ∷ [])),
              append_assoc (shape s.abandoned) (shape s.queued) (shape (here ∷ [])),
            )
            refl)
  ]
