-- ===== src/Scheduler/Progress.antt =====
-- A task that waits in the queue is taken after as many rounds as tasks wait before it.
use seaice.Prelude.{
  ℕ, zero, suc, ◌≤◌, ◌≡◌, refl, ◌∙◌, ap, sym, subst, List, [], ◌∷◌, ◌++◌, true, false, Option, none,
  some, arith, append_assoc, Bool-cases, inl, inr, length,
}
use mathlib.Core.Bool.{true≢false}
use seaice.Scheduler.{
  Body, fiber, callback, FiberAndThread, Activation, Loop, pick, passed_over, other_thread,
  is_empty, is_stopping, main_round,
}
use seaice.Scheduler.Fibers.{Fiber}
use seaice.Scheduler.Invariant.{NoIdle, Ready}
use seaice.Scheduler.Turns.{RoundEnd, goes_on, returned, aborted, with_queue, main_round-RoundEnd}

-- The rounds of `mainFun`, until an assertion fails.
unfoldable pub rounds : (ℕ → List ℕ → Activation) → ℕ → Loop → Option Loop
rounds act zero l = some l
rounds act (suc k) l = elim (main_round act l) [ none ↦ none | some l' ↦ rounds act k l' ]

-- With a task in the queue that the thread may take, the loop takes it, or one before it.
data Ahead (me : ℕ) (fibers : List Fiber) (task : FiberAndThread)
    (ahead behind : List FiberAndThread) : Type 0 where
  itself :
      (pick me fibers (ahead ++ task ∷ behind)).0 ≡ some task → Ahead me fibers task ahead behind
  earlier :
      (ahead' : List FiberAndThread)
      → (pick me fibers (ahead ++ task ∷ behind)).1 ≡ ahead' ++ task ∷ behind
      → suc (length ahead') ≡ length ahead
      → Ahead me fibers task ahead behind

Ahead-later :
    (me : ℕ) (fibers : List Fiber) (task ft : FiberAndThread) (ahead behind : List FiberAndThread)
    → passed_over me fibers ft ≡ true
    → Ahead me fibers task ahead behind
    → Ahead me fibers task (ft ∷ ahead) behind
unfolding pick
Ahead-later me fibers task ft ahead behind h (itself p) = itself (rw h p)
Ahead-later me fibers task ft ahead behind h (earlier ahead' p e) =
    earlier (ft ∷ ahead') (rw h (ap (λ (q : List FiberAndThread). ft ∷ q) p)) (ap suc e)

pick-Ahead :
    (me : ℕ) (fibers : List Fiber) (task : FiberAndThread) (ahead behind : List FiberAndThread)
    → passed_over me fibers task ≡ false
    → Ahead me fibers task ahead behind
unfolding pick
pick-Ahead me fibers task [] behind h = itself (rw h refl)
pick-Ahead me fibers task (ft ∷ ahead) behind h = elim (Bool-cases (passed_over me fibers ft)) [
  | inl over ↦
      Ahead-later me fibers task ft ahead behind over (pick-Ahead me fibers task ahead behind h)
  | inr here ↦ earlier ahead (rw here refl) refl
]

quiet_eligible :
    (body : Body) (thread : Option ℕ) (l : Loop)
    → Ready l
    → other_thread l.me thread ≡ false
    → passed_over l.me l.thread.fibers (record { body = body; thread = thread }) ≡ false
quiet_eligible (fiber i) thread l r h = rw h (r.quiet i)
quiet_eligible (callback c) thread l r h = rw h refl

full_runs :
    (ahead : List FiberAndThread) (task : FiberAndThread) (behind queue : List FiberAndThread)
    → queue ≡ ahead ++ task ∷ behind
    → is_empty queue ≡ false
full_runs [] task behind queue h = ap is_empty h
full_runs (ft ∷ ahead) task behind queue h = ap is_empty h

-- Within `n` rounds an assertion has failed, or the task is the one that the next round takes.
pub data Served (act : ℕ → List ℕ → Activation) (task : FiberAndThread) (n : ℕ) (l : Loop)
    : Type 0 where
  aborts : (k : ℕ) → k ≤ suc n → rounds act k l ≡ none → Served act task n l
  takes :
      (k : ℕ) (l' : Loop)
      → k ≤ n
      → rounds act k l ≡ some l'
      → (pick l'.me l'.thread.fibers l'.queue).0 ≡ some task
      → Served act task n l

Served-later :
    (act : ℕ → List ℕ → Activation) (task : FiberAndThread) (n : ℕ) (l l' : Loop)
    → main_round act l ≡ some l'
    → Served act task n l'
    → Served act task (suc n) l
unfolding rounds
Served-later act task n l l' e (aborts k b h) = aborts (suc k) (omega arith) (rw (e, rounds) h)
Served-later act task n l l' e (takes k l'' b h p) =
    takes (suc k) l'' (omega arith) (rw (e, rounds) h) p

aborts_now :
    (act : ℕ → List ℕ → Activation) (task : FiberAndThread) (n : ℕ) (l : Loop)
    → main_round act l ≡ none
    → Served act task n l
unfolding rounds
aborts_now act task n l e = aborts 1 (omega arith) (rw (e, rounds) refl)

grown :
    (ahead : List FiberAndThread) (task : FiberAndThread)
    (behind new rest queue : List FiberAndThread)
    → rest ≡ ahead ++ task ∷ behind
    → queue ≡ rest ++ new
    → queue ≡ ahead ++ task ∷ (behind ++ new)
grown ahead task behind new rest queue p q =
    q ∙ ap (λ (r : List FiberAndThread). r ++ new) p ∙ append_assoc ahead (task ∷ behind) new

not_stopping : (l : Loop) → is_empty l.queue ≡ false → is_stopping l ≡ false
not_stopping l h = ground (arith, h)

module _ (act : ℕ → List ℕ → Activation) (task : FiberAndThread) where
  -- What the round leaves has the task in its queue, so `mainFun` has not returned.
  round-Served :
      (n : ℕ) (ahead' behind : List FiberAndThread) (l base : Loop) (o : Option Loop)
      → main_round act l ≡ o
      → RoundEnd l base o
      → base.me ≡ l.me
      → base.idle ≡ l.idle
      → base.queue ≡ ahead' ++ task ∷ behind
      → ((behind' : List FiberAndThread) (l' : Loop)
          → Ready l'
          → l'.me ≡ l.me
          → l'.idle ≡ l.idle
          → l'.queue ≡ ahead' ++ task ∷ behind'
          → Served act task n l')
      → Served act task (suc n) l
  round-Served n ahead' behind l base _ e (goes_on l' r x) m i p again =
      Served-later act task n l l' e (
        again (behind ++ x.new) l' r (x.me ∙ m) (x.idle ∙ i)
          (grown ahead' task behind x.new base.queue l'.queue p x.queue))
  round-Served n ahead' behind l base _ e (returned l' off stops x) m i p again =
      let full =
        full_runs ahead' task (behind ++ x.new) l'.queue
          (grown ahead' task behind x.new base.queue l'.queue p x.queue) in
      absurd (true≢false (sym stops ∙ not_stopping l' full))
  round-Served n ahead' behind l base _ e (aborted ft t h) m i p again =
      aborts_now act task (suc n) l e

  eligible :
      (me : ℕ) (l : Loop)
      → Ready l
      → l.me ≡ me
      → other_thread me task.thread ≡ false
      → passed_over l.me l.thread.fibers task ≡ false
  eligible me l r m mine =
      quiet_eligible task.body task.thread l r (ap (λ (k : ℕ). other_thread k task.thread) m ∙ mine)

  served :
      (n me idle : ℕ) (ahead behind : List FiberAndThread) (l : Loop)
      → Ready l
      → l.me ≡ me
      → l.idle ≡ idle
      → ((j : ℕ) (log : List ℕ) → NoIdle idle (act j log).schedules)
      → l.queue ≡ ahead ++ task ∷ behind
      → length ahead ≡ n
      → other_thread me task.thread ≡ false
      → Served act task n l
  unfolding rounds
  served zero me idle ahead behind l r m i quiet p len mine =
      elim (pick-Ahead l.me l.thread.fibers task ahead behind (eligible me l r m mine)) [
        | itself h ↦
            takes 0 l (omega arith) refl
              (ap (λ (q : List FiberAndThread). (pick l.me l.thread.fibers q).0) p ∙ h)
        | earlier ahead' h e ↦ absurd (omega (arith, e, len))
      ]
  served (suc n) me idle ahead behind l r m i quiet p len mine =
      elim (pick-Ahead l.me l.thread.fibers task ahead behind (eligible me l r m mine)) [
        | itself h ↦
            takes 0 l (omega arith) refl
              (ap (λ (q : List FiberAndThread). (pick l.me l.thread.fibers q).0) p ∙ h)
        | earlier ahead' h e ↦
            round-Served n ahead' behind l (with_queue (pick l.me l.thread.fibers l.queue).1 l) _
              refl
              (main_round-RoundEnd act l r (
                subst (λ (k : ℕ). (j : ℕ) (log : List ℕ) → NoIdle k (act j log).schedules) (sym i)
                  quiet))
              refl refl (ap (λ (q : List FiberAndThread). (pick l.me l.thread.fibers q).1) p ∙ h)
              (λ behind' l' r' m' i' p'.
                served n me idle ahead' behind' l' r' (m' ∙ m) (i' ∙ i) quiet p'
                  (omega (arith, e, len)) mine)
      ]

  -- In a thread that runs its main fiber and no other, where no task is the idle fiber, now or of
  -- those that callbacks schedule: a task that the thread may take, with `k` tasks before it in
  -- the queue, is the one that `mainFun` takes after at most `k` rounds, unless an assertion
  -- fails within `k + 1` rounds.
  pub rounds-Served :
      (l : Loop) (ahead behind : List FiberAndThread)
      → Ready l
      → ((j : ℕ) (log : List ℕ) → NoIdle l.idle (act j log).schedules)
      → l.queue ≡ ahead ++ task ∷ behind
      → other_thread l.me task.thread ≡ false
      → Served act task (length ahead) l
  rounds-Served l ahead behind r quiet p mine =
      served (length ahead) l.me l.idle ahead behind l r refl refl quiet p refl mine
