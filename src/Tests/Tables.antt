-- ===== src/Tests/Tables.antt =====
-- Runs of the table of descriptors and of the timers.
use seaice.Prelude.{
  ℕ, ◌+◌, ◌≡◌, ◌≢◌, inl, refl, List, [], ◌∷◌, Bool, true, false, Option, none, some, get_or,
  replicate, arith,
}
use seaice.FdManager.{FdCtx, FileStatus, file, new_ctx, fd, Datas, done, get, del}
use seaice.FdManager.Table.{Created, get-creates, get-del}
use seaice.Timer.{Timer, TimerManager, before, insert, list_timeout_callback}
use seaice.Timer.Insertion.{InOrder, Inserted, insert-InOrder}
use seaice.Timer.Renewal.{Distinct}
use seaice.Timer.Expiry.{Listed, list_timeout_callback-Listed}

-- Every descriptor is a socket's.
abbrev all_sockets : ℕ → FileStatus
all_sockets n = file true

abbrev four : Datas
four = replicate 4 none

get-creates_example :
    (after : Datas) × (get all_sockets (fd 6) true four
      ≡ (after, done (some (new_ctx all_sockets 6))))
    × Created all_sockets 6 four after
get-creates_example = get-creates all_sockets 6 four (omega arith) (omega arith) refl

abbrev socket : FdCtx
unfolding new_ctx
socket = new_ctx all_sockets 0

get-del_example :
    (after : Datas) × (del (fd 0) (some socket ∷ []) ≡ (after, done tt))
    × (get all_sockets (fd 0) false after ≡ (after, done none))
    × ((m : ℕ) → 0 ≢ m → get_or after m none ≡ get_or (some socket ∷ []) m none)
get-del_example = get-del all_sockets 0 (some socket ∷ []) (omega arith)

abbrev at : ℕ → Bool → Timer
at time cycle = record {
  ms = 10;
  cb = some time;
  cycle = cycle;
  id = time;
  cancelled = false;
  expire_ms = time;
  addr = time;
}

-- A reading of the clock later than all that is set.
abbrev ticking : ℕ → ℕ
ticking i = i + 8

two-InOrder : InOrder (at 5 true ∷ at 9 false ∷ [])
unfolding InOrder
two-InOrder = ((inl (omega arith), tt), (tt, tt))

two-Distinct : Distinct (at 5 true ∷ at 9 false ∷ [])
unfolding Distinct
two-Distinct = (((λ e. absurd (omega (arith, e))), tt), (tt, tt))

insert-run :
    insert (at 7 true) (at 5 true ∷ at 9 false ∷ []) ≡ at 5 true ∷ at 7 true ∷ at 9 false ∷ []
unfolding insert before
insert-run = refl

insert-InOrder_example :
    InOrder (insert (at 7 true) (at 5 true ∷ at 9 false ∷ []))
    × Inserted
        (at 7 true)
        (at 5 true ∷ at 9 false ∷ [])
        (insert (at 7 true) (at 5 true ∷ at 9 false ∷ []))
insert-InOrder_example = insert-InOrder (at 7 true) (at 5 true ∷ at 9 false ∷ []) two-InOrder

abbrev manager : TimerManager
manager = record {
  timer_set = at 5 true ∷ at 9 false ∷ [];
  timer = at 0 false;
  front_callbacks = 0;
}

list_timeout_callback-Listed_example :
    (out : List (Option ℕ)) × (after : TimerManager) × (list_timeout_callback 7 ticking [] manager
      ≡ (out, after))
    × Listed 7 ticking manager out after
list_timeout_callback-Listed_example =
    list_timeout_callback-Listed 7 ticking [] (at 5 true) (at 0 false) (at 9 false ∷ []) 0
      two-InOrder two-Distinct
