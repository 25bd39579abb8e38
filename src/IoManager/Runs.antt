-- ===== src/IoManager/Runs.antt =====
-- Runs of calls on a new manager of seaice/iomanager.cpp.
use seaice.Prelude.{
  ℕ, ◌≡◌, ◌≢◌, ◌⊎◌, ◌==◌, true, false, refl, ◌∙◌, ap, sym, subst, List, [], ◌∷◌, ◌++◌, Bool, Option,
  none, arith, get_or, get_or-replicate, length-replicate, length, replicate,
}
use seaice.IoManager.{
  Events, FdContext, new_context, Wake, Outcome, done, asserts, out_of_bounds, ◌>>=◌, CtlOp,
  ctl_add, only_read, IoManager, new_io, resize_fd_context, context,
}
use seaice.IoManager.Waiting.{Call, promised, waiters, Waiters, AllArmed}
use seaice.IoManager.Interest.{interest, Refusal, IsEpoll, IsValid, Reached}
use seaice.IoManager.Calls.{perform, Fits, Stops, subject}

abbrev pub promised_all : List Call → Waiters → Waiters × List Wake
promised_all [] w = (w, [])
promised_all (c ∷ cs) w =
    let (after, woken) = promised c w in
    let (end, later) = promised_all cs after in (end, woken ++ later)

abbrev pub OnDone : {A : Type 0} → (A → Type 0) → Outcome A → Type 0
OnDone P (done a) = P a
OnDone P asserts = Unit {0}
OnDone P out_of_bounds = Unit {0}

module _ {K : Type 0} (ctl : CtlOp → ℕ → Events → K → K × Bool) where
  unfoldable pub perform_all : List Call → IoManager K → Outcome (IoManager K)
  unfolding perform
  perform_all [] s = done s
  perform_all (c ∷ cs) s = perform ctl c s >>= perform_all cs

  -- Each call of a run is on a descriptor that it is for, and none on the end of the pipe.
  unfoldable pub FitsAll : List Call → IoManager K → Type 0
  unfolding perform
  FitsAll [] s = Unit {0}
  FitsAll (c ∷ cs) s = (subject c ≢ s.tick_fd) × Fits c s × OnDone (FitsAll cs) (perform ctl c s)

differs : (n m : ℕ) → n ≢ m → (n == m) ≡ false
differs n m h = ground arith

module _ {K : Type 0} (ctl : CtlOp → ℕ → Events → K → K × Bool) (registered : K → ℕ → Option Events)
    (epoll : IsEpoll ctl registered) where
  -- A run in which `epoll_ctl` fails on a change that its set allows, after calls that have kept their
  -- promises.
  pub data Refusing : List Call → IoManager K → Type 0 where
    now :
        {c : Call} {cs : List Call} {s : IoManager K}
        → Stops c (perform ctl c s)
        → Refusal ctl registered s.kernel
        → Refusing (c ∷ cs) s
    later :
        {c : Call} {cs : List Call} {s t : IoManager K}
        → perform ctl c s ≡ done t
        → Reached registered s (promised c (waiters s)).0 (promised c (waiters s)).1 t
        → Refusing cs t
        → Refusing (c ∷ cs) s

  -- The run ends, and the state it leaves is what its calls promise one after the other; or `epoll_ctl`
  -- fails.
  abbrev pub RanAll : List Call → IoManager K → Type 0
  RanAll cs s =
      ((t : IoManager K) × (perform_all ctl cs s ≡ done t)
        × (let (w, woken) = promised_all cs (waiters s) in Reached registered s w woken t))
      ⊎ Refusing cs s

  -- What the constructor leaves, once its `epoll_ctl` has succeeded.
  abbrev pub started : ℕ → K → IoManager K
  started end k = record {
    contexts = resize_fd_context 64 [];
    tasks = [];
    kernel = k;
    tick_fd = end;
  }

  started-contexts : (end : ℕ) (k : K) → (started end k).contexts ≡ replicate 96 new_context
  unfolding resize_fd_context
  started-contexts end k = refl

  context-started : (end : ℕ) (k : K) (n : ℕ) → context n (started end k) ≡ new_context
  context-started end k n =
      ap (λ (cs : List FdContext). get_or cs n new_context) (started-contexts end k)
      ∙ get_or-replicate 96 n new_context

  pub started-IsValid :
      (end : ℕ) (k k' : K)
      → ((n : ℕ) → registered k n ≡ none)
      → ctl ctl_add end only_read k ≡ (k', true)
      → IsValid registered (started end k')
  started-IsValid end k k' empty added = record {
    long = omega (arith, ap length (started-contexts end k'), length-replicate 96 new_context);
    armed = λ n.
        subst AllArmed (sym (context-started end k' n)) (record { reading = tt; writing = tt });
    synced = λ n other.
        (epoll.succeeds ctl_add end only_read k k' added).1 n
        ∙ rw (differs n end other) (empty n)
        ∙ ap (λ (c : FdContext). interest c.events) (sym (context-started end k' n));
  }

  -- A new manager and a run of calls on it; or the constructor's assertion fails.
  abbrev pub RanNew : ℕ → K → List Call → Type 0
  RanNew end k cs =
      ((s : IoManager K) × (new_io ctl end k ≡ done s) × RanAll cs s) ⊎ (new_io ctl end k ≡ asserts)
