-- ===== src/IoManager/Performs.antt =====
-- A turn of `idleFun` and `addEvent` of seaice/iomanager.cpp against what they promise, then every call.
use seaice.Prelude.{ℕ, ◌≢◌, List, Bool, Option}
use seaice.IoManager.{
  Events, meet, without, FdContext, Wake, Outcome, done, CtlOp, IoManager, resize_fd_context,
  context, store, left_op,
}
use seaice.IoManager.Interest.{IsEpoll, IsValid}
use seaice.IoManager.Room.{Room}

module _ {K : Type 0} (ctl : CtlOp → ℕ → Events → K → K × Bool) (registered : K → ℕ → Option Events)
    (epoll : IsEpoll ctl registered) where
  module _ (s : IoManager K) (valid : IsValid registered s) (n : ℕ) (other : n ≢ s.tick_fd) where
    -- The end of a turn of `idleFun`.
    abbrev handled : Events → FdContext × List Wake → Outcome (IoManager K)
    handled e (ctx, queue) =
        let left = without (context n s).events (meet e (context n s).events) in
        done (store n ctx queue (ctl (left_op left) n left s.kernel).0 s)

    -- The state in which `addEvent` looks its descriptor up.
    abbrev resized : IoManager K
    resized = record s { contexts = resize_fd_context n s.contexts }
