-- ===== src/Scheduler/Queue.antt =====
-- Which task the loop over the queue takes.
use seaice.Prelude.{
  ℕ, ◌≡◌, refl, ◌∙◌, ap, sym, List, [], ◌∷◌, ◌++◌, true, false, none, some, All, Bool-cases, inl,
  inr, append_assoc, append-nil, ◌⊎◌,
}
use seaice.Scheduler.{FiberAndThread, passed_over, pick, schedule_all}
use seaice.Scheduler.Fibers.{Fiber}

-- The task that is taken is the first that is not passed over; the others stay, in their order.
pub record Picked (me : ℕ) (fibers : List Fiber) (queue : List FiberAndThread) : Type 0 where
  pub before : List FiberAndThread
  pub task : FiberAndThread
  pub after : List FiberAndThread
  pub split : queue ≡ before ++ task ∷ after
  pub earlier : All (λ ft. passed_over me fibers ft ≡ true) before
  pub eligible : passed_over me fibers task ≡ false
  pub taken : pick me fibers queue ≡ (some task, before ++ after)

-- No task is taken, since the loop passes over all of them.
pub record Waiting (me : ℕ) (fibers : List Fiber) (queue : List FiberAndThread) : Type 0 where
  pub all : All (λ ft. passed_over me fibers ft ≡ true) queue
  pub nothing : pick me fibers queue ≡ (none, queue)

pick_here :
    (me : ℕ) (fibers : List Fiber) (ft : FiberAndThread) (rest : List FiberAndThread)
    → passed_over me fibers ft ≡ false
    → Picked me fibers (ft ∷ rest)
unfolding pick
pick_here me fibers ft rest h = record {
  before = [];
  task = ft;
  after = rest;
  split = refl;
  earlier = tt;
  eligible = h;
  taken = rw h refl;
}

pick_later :
    (me : ℕ) (fibers : List Fiber) (ft : FiberAndThread) (rest : List FiberAndThread)
    → passed_over me fibers ft ≡ true
    → Picked me fibers rest
    → Picked me fibers (ft ∷ rest)
unfolding pick
pick_later me fibers ft rest h p = record {
  before = ft ∷ p.before;
  task = p.task;
  after = p.after;
  split = ap (λ (l : List FiberAndThread). ft ∷ l) p.split;
  earlier = (h, p.earlier);
  eligible = p.eligible;
  taken = rw (h, p.taken) refl;
}

wait_later :
    (me : ℕ) (fibers : List Fiber) (ft : FiberAndThread) (rest : List FiberAndThread)
    → passed_over me fibers ft ≡ true
    → Waiting me fibers rest
    → Waiting me fibers (ft ∷ rest)
unfolding pick
wait_later me fibers ft rest h w = record { all = (h, w.all); nothing = rw (h, w.nothing) refl }

pick_next :
    (me : ℕ) (fibers : List Fiber) (ft : FiberAndThread) (rest : List FiberAndThread)
    → passed_over me fibers ft ≡ true
    → Picked me fibers rest ⊎ Waiting me fibers rest
    → Picked me fibers (ft ∷ rest) ⊎ Waiting me fibers (ft ∷ rest)
pick_next me fibers ft rest h (inl p) = inl (pick_later me fibers ft rest h p)
pick_next me fibers ft rest h (inr w) = inr (wait_later me fibers ft rest h w)

-- The loop over the queue takes a task, or passes over all of them.
pub pick_first :
    (me : ℕ) (fibers : List Fiber) (queue : List FiberAndThread)
    → Picked me fibers queue ⊎ Waiting me fibers queue
unfolding pick
pick_first me fibers [] = inr (record { all = tt; nothing = refl })
pick_first me fibers (ft ∷ rest) = elim (Bool-cases (passed_over me fibers ft)) [
  | inl over ↦ pick_next me fibers ft rest over (pick_first me fibers rest)
  | inr here ↦ inl (pick_here me fibers ft rest here)
]

-- The tasks of a callback come last, in their order.
pub schedule_all_lem : (fts queue : List FiberAndThread) → schedule_all fts queue ≡ queue ++ fts
unfolding schedule_all
schedule_all_lem [] queue = sym (append-nil queue)
schedule_all_lem (ft ∷ fts) queue = schedule_all_lem fts _ ∙ append_assoc queue (ft ∷ []) fts
