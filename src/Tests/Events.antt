-- ===== src/Tests/Events.antt =====
-- Runs of the event loop on an `epoll` that is a function.
use seaice.Prelude.{
  ℕ, ◌≡◌, refl, List, [], ◌∷◌, Bool, true, false, Option, none, some, ◌==◌, if◌then◌else◌, ap, sym,
  ltb, ◌&&◌,
}
use mathlib.Core.Bool.{true≢false, false≢true}
use seaice.FdManager.{fd}
use seaice.IoManager.{
  Events, CtlOp, ctl_add, IoManager, Reported, asserts, out_of_bounds, ◌>>=◌, resize_fd_context,
  then_reset, trigger_event, cancel_event,
}
use seaice.IoManager.Waiting.{Call, adds, cancels_all, happens, reads, writes, only, both}
use seaice.IoManager.Interest.{accepts, entry, IsEpoll}
use seaice.IoManager.Calls.{perform}
use seaice.IoManager.Runs.{started}

abbrev Watched : Type 0
Watched = ℕ → Option Events

abbrev change : CtlOp → ℕ → Events → Watched → Watched
change op n e k m = if m == n then entry op e else k m

-- Descriptors from 1000 on are not open.
abbrev allows : CtlOp → ℕ → Watched → Bool
allows op n k = accepts op (k n) && ltb n 1000

abbrev epoll_ctl : CtlOp → ℕ → Events → Watched → Watched × Bool
epoll_ctl op n e k = if allows op n k then (change op n e k, true) else (k, false)

abbrev watches : Watched → ℕ → Option Events
watches k n = k n

abbrev nothing_watched : Watched
nothing_watched n = none

and_left : (a b : Bool) → (a && b) ≡ true → a ≡ true
and_left true b h = refl
and_left false b h = h

passes :
    (b : Bool) (after k k' : Watched)
    → ◌≡◌ {A = Watched × Bool} (if b then (after, true) else (k, false)) (k', true)
    → (b ≡ true) × (k' ≡ after)
passes true after k k' h = (refl, ap (λ (x : Watched × Bool). x.0) (sym h))
passes false after k k' h = absurd (false≢true (ap (λ (x : Watched × Bool). x.1) h))

stays :
    (b : Bool) (after k k' : Watched)
    → ◌≡◌ {A = Watched × Bool} (if b then (after, true) else (k, false)) (k', false)
    → k' ≡ k
stays true after k k' h = absurd (true≢false (ap (λ (x : Watched × Bool). x.1) h))
stays false after k k' h = ap (λ (x : Watched × Bool). x.0) (sym h)

epoll_ctl-IsEpoll : IsEpoll epoll_ctl watches
epoll_ctl-IsEpoll = record {
  succeeds = λ op n e k k' h.
      let (passed, same) = passes (allows op n k) (change op n e k) k k' h in
      (and_left (accepts op (k n)) (ltb n 1000) passed, λ m. ap (λ (l : Watched). l m) same);
  fails =
      λ op n e k k' h m. ap (λ (l : Watched). l m) (stays (allows op n k) (change op n e k) k k' h);
}

abbrev readable : Reported
readable = record { epoll_in = true; epoll_out = false; epoll_err = false; epoll_hup = false }

-- A fiber waits to read, and a callback to write; the descriptor becomes readable, the rest is
-- cancelled.
abbrev run : List Call
run =
    adds 1 (some 7) none (only reads) 5
    ∷ adds 1 (some 8) (some 3) (only writes) 5
    ∷ happens readable 5
    ∷ cancels_all 5
    ∷ []

-- The manager that the constructor makes.
abbrev begin : IoManager Watched
begin =
    started epoll_ctl watches epoll_ctl-IsEpoll 4 (change ctl_add 4 (only reads) nothing_watched)

-- A descriptor that equals the table's size reads past its end.
cancel-at_size : cancel_event epoll_ctl (only reads) (fd 96) begin ≡ out_of_bounds
unfolding cancel_event resize_fd_context
cancel-at_size = refl

-- A descriptor that is not open fails the assertion of `addEvent`.
add-closed : perform epoll_ctl (adds 1 (some 7) none (only reads) 1000) begin ≡ asserts
unfolding perform resize_fd_context
add-closed = refl

-- Both events are cancelled where only one has been added.
cancel-both :
    perform epoll_ctl (adds 1 (some 7) none (only reads) 5) begin
      >>= (λ s. cancel_event epoll_ctl both (fd 5) s)
    ≡ asserts
unfolding perform cancel_event resize_fd_context then_reset trigger_event
cancel-both = refl
