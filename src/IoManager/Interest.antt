-- ===== src/IoManager/Interest.antt =====
-- What the calls of `epoll_ctl` in seaice/iomanager.cpp rely on, and the states in which the set of
-- descriptors that `epoll` watches is that of the table.
use seaice.Prelude.{
  ℕ, ◌≤◌, ◌<◌, ◌≡◌, refl, ◌∙◌, ap, sym, List, [], ◌++◌, append-nil, Bool, true, false, Option, none,
  some, ◌==◌, if◌then◌else◌, length, set, get_or, arith, Bool-cases, ==_iff, ==_refl,
  get_or-set_same, get_or-set_other, length-set, inl, inr, subst, ◌⊎◌, ◌≢◌,
}
use mathlib.Core.Bool.{true≢false}
use seaice.IoManager.{
  Events, is_none, FdContext, new_context, Wake, CtlOp, ctl_add, ctl_mod, ctl_del, left_op, add_op,
  without, IoManager, context, store,
}
use seaice.IoManager.Waiting.{Side, reads, writes, has, waiter, waiters, put, Waiters, AllArmed}
use seaice.IoManager.Contexts.{Turned, is_none_lem}

-- The events a descriptor is watched for; `none` if it is not in the set.
abbrev pub interest : Events → Option Events
interest e = if is_none e then none else some e

-- `epoll_ctl` adds what is not in the set, and changes and removes what is.
abbrev pub accepts : CtlOp → Option Events → Bool
accepts ctl_add none = true
accepts ctl_add (some e) = false
accepts ctl_mod none = false
accepts ctl_mod (some e) = true
accepts ctl_del none = false
accepts ctl_del (some e) = true

abbrev pub entry : CtlOp → Events → Option Events
entry ctl_add e = some e
entry ctl_mod e = some e
entry ctl_del e = none

-- The documented behaviour of `epoll_ctl`: where it succeeds, the set allowed the change and has it, and
-- where it fails, for whatever reason, the set is as before. `registered` is what the set says of a
-- descriptor.
pub record IsEpoll {K : Type 0} (ctl : CtlOp → ℕ → Events → K → K × Bool)
    (registered : K → ℕ → Option Events) : Type 0 where
  pub succeeds :
      (op : CtlOp) (n : ℕ) (e : Events) (k k' : K)
      → ctl op n e k ≡ (k', true)
      → (accepts op (registered k n) ≡ true)
        × ((m : ℕ) → registered k' m ≡ (if m == n then entry op e else registered k m))
  pub fails :
      (op : CtlOp) (n : ℕ) (e : Events) (k k' : K)
      → ctl op n e k ≡ (k', false)
      → (m : ℕ) → registered k' m ≡ registered k m

-- `epoll_ctl` fails on a change that the set allows: the descriptor is not open, does not support
-- `epoll`, or there is no room.
pub record Refusal {K : Type 0} (ctl : CtlOp → ℕ → Events → K → K × Bool)
    (registered : K → ℕ → Option Events) (k : K) : Type 0 where
  pub op : CtlOp
  pub n : ℕ
  pub events : Events
  pub allowed : accepts op (registered k n) ≡ true
  pub fails : (ctl op n events k).1 ≡ false

module _ {K : Type 0} (registered : K → ℕ → Option Events) where
  -- Each event that is waited for can be woken, and `epoll` watches just what is waited for, apart from
  -- the end of the pipe.
  pub record IsValid (s : IoManager K) : Type 0 where
    pub long : 2 ≤ length s.contexts
    pub armed : (n : ℕ) → AllArmed (context n s)
    pub synced : (n : ℕ) → n ≢ s.tick_fd → registered s.kernel n ≡ interest (context n s).events

  -- The state is valid, the waiters are `w`, and `woken` has been scheduled since `s`.
  pub record Reached (s : IoManager K) (w : Waiters) (woken : List Wake) (t : IoManager K)
      : Type 0 where
    pub valid : IsValid t
    pub waits : (n : ℕ) (d : Side) → waiters t n d ≡ w n d
    pub tasks : t.tasks ≡ s.tasks ++ woken

  module _ (s : IoManager K) (valid : IsValid s) (n : ℕ) (e : Events) (w : Option Wake)
      (woken : List Wake) where
    -- The context at `n` is replaced.
    module _ (inside : n < length s.contexts) (after : FdContext) (k : K) (queue : List Wake)
        (queued : queue ≡ s.tasks ++ woken) (h : Turned e w (context n s) after)
        (sync : (m : ℕ)
          → registered k m
            ≡ (if m == n then interest after.events else registered s.kernel m)) where
      abbrev stored_state : IoManager K
      stored_state = store n after queue k s

      at_n : (m : ℕ) → (m == n) ≡ true → context m stored_state ≡ after
      at_n m same =
          ap (λ (i : ℕ). get_or (set s.contexts n after) i new_context) ((==_iff m n).0 same)
          ∙ get_or-set_same s.contexts n after new_context inside

      elsewhere : (m : ℕ) → (m == n) ≡ false → context m stored_state ≡ context m s
      elsewhere m differs =
          get_or-set_other s.contexts n m after new_context
            (λ p. true≢false (sym (==_refl m) ∙ ap (λ (i : ℕ). m == i) (sym p) ∙ differs))

      armed_after : (m : ℕ) → AllArmed (context m stored_state)
      armed_after m = elim (Bool-cases (m == n)) [
        | inl same ↦ subst AllArmed (sym (at_n m same)) h.armed
        | inr differs ↦ subst AllArmed (sym (elsewhere m differs)) (valid.armed m)
      ]

      synced_after :
          (m : ℕ) → m ≢ s.tick_fd → registered k m ≡ interest (context m stored_state).events
      synced_after m other = elim (Bool-cases (m == n)) [
        | inl same ↦ sync m ∙ rw (same, at_n m same) refl
        | inr differs ↦ sync m ∙ rw (differs, elsewhere m differs) (valid.synced m other)
      ]

      side : (d : Side) → waiter after d ≡ (if has e d then w else waiter (context n s) d)
      side reads = h.on_read
      side writes = h.on_write

      waits_after : (m : ℕ) (d : Side) → waiters stored_state m d ≡ put n e w (waiters s) m d
      waits_after m d = elim (Bool-cases (m == n)) [
        | inl same ↦
            ap (λ (c : FdContext). waiter c d) (at_n m same)
            ∙ side d
            ∙ rw (same, (==_iff m n).0 same) refl
        | inr differs ↦ ap (λ (c : FdContext). waiter c d) (elsewhere m differs) ∙ rw (differs) refl
      ]

      pub store-Reached : Reached s (put n e w (waiters s)) woken stored_state
      store-Reached = record {
        valid = record {
          long = omega (arith, length-set s.contexts n after, valid.long);
          armed = armed_after;
          synced = synced_after;
        };
        waits = waits_after;
        tasks = queued;
      }

    -- Nothing is changed, since what the call would do holds.
    kept_side :
        Turned e w (context n s) (context n s)
        → (m : ℕ) (d : Side) → (m == n) ≡ true
        → (if has e d then w else waiters s m d) ≡ waiters s m d
    kept_side h m reads same = rw ((==_iff m n).0 same) (sym h.on_read)
    kept_side h m writes same = rw ((==_iff m n).0 same) (sym h.on_write)

    pub kept :
        Turned e w (context n s) (context n s)
        → woken ≡ []
        → Reached s (put n e w (waiters s)) woken s
    kept h none_woken = record {
      valid = valid;
      waits = λ m d. elim (Bool-cases (m == n)) [
        | inl same ↦ rw (same) (sym (kept_side h m d same))
        | inr differs ↦ rw (differs) refl
      ];
      tasks = sym (append-nil s.tasks) ∙ ap (λ (q : List Wake). s.tasks ++ q) (sym none_woken);
    }

-- The calls of `epoll_ctl` that the source makes are allowed, and have the set follow the table.
module _ {K : Type 0} (ctl : CtlOp → ℕ → Events → K → K × Bool) (registered : K → ℕ → Option Events)
    (epoll : IsEpoll ctl registered) (n : ℕ) (k : K) (before after : Events)
    (synced : registered k n ≡ interest before) where
  -- The call succeeds, and only the entry of `n` changes; or it fails.
  abbrev pub Watched : CtlOp → Type 0
  Watched op =
      ((k' : K) × (ctl op n after k ≡ (k', true))
        × ((m : ℕ) → registered k' m ≡ (if m == n then interest after else registered k m)))
      ⊎ (((k' : K) × (ctl op n after k ≡ (k', false))) × Refusal ctl registered k)

  watched :
      (op : CtlOp)
      → accepts op (interest before) ≡ true
      → entry op after ≡ interest after
      → Watched op
  watched op fits same = elim (Bool-cases (ctl op n after k).1) [
    | inl passed ↦
        let k' = (ctl op n after k).0 in
        let e : ctl op n after k ≡ (k', true) = ap (λ (b : Bool). (k', b)) passed in
        inl (
          k',
          e,
          λ m.
              (epoll.succeeds op n after k k' e).1 m
              ∙ ap (λ (o : Option Events). if m == n then o else registered k m) same,
        )
    | inr failed ↦
        let k' = (ctl op n after k).0 in
        inr (
          (k', ap (λ (b : Bool). (k', b)) failed),
          record { op = op; n = n; events = after; allowed = rw (synced) fits; fails = failed },
        )
  ]

  pub left_op-Watched : is_none before ≡ false → Watched (left_op after)
  left_op-Watched some_before = elim (Bool-cases (is_none after)) [
    | inl nothing ↦
        subst (λ (b : Bool). Watched (if b then ctl_del else ctl_mod)) (sym nothing)
          (watched ctl_del (rw (some_before) refl) (rw (nothing) refl))
    | inr left ↦
        subst (λ (b : Bool). Watched (if b then ctl_del else ctl_mod)) (sym left)
          (watched ctl_mod (rw (some_before) refl) (rw (left) refl))
  ]

  pub add_op-Watched : is_none after ≡ false → Watched (add_op before)
  add_op-Watched some_after = elim (Bool-cases (is_none before)) [
    | inl nothing ↦
        subst (λ (b : Bool). Watched (if b then ctl_add else ctl_mod)) (sym nothing)
          (watched ctl_add (rw (nothing) refl) (rw (some_after) refl))
    | inr there ↦
        subst (λ (b : Bool). Watched (if b then ctl_add else ctl_mod)) (sym there)
          (watched ctl_mod (rw (there) refl) (rw (some_after) refl))
  ]

-- `epoll_ctl` in a turn of `idleFun`: the set follows the table, also where there was nothing to remove;
-- or it fails on a change that the set allows.
module _ {K : Type 0} (ctl : CtlOp → ℕ → Events → K → K × Bool) (registered : K → ℕ → Option Events)
    (epoll : IsEpoll ctl registered) (n : ℕ) (k : K) where
  -- A call on what the set does not allow changes nothing.
  disallowed :
      (op : CtlOp) (e : Events)
      → accepts op (registered k n) ≡ false
      → (m : ℕ) → registered (ctl op n e k).0 m ≡ registered k m
  disallowed op e closed = elim (Bool-cases (ctl op n e k).1) [
    | inl passed ↦
        let k' = (ctl op n e k).0 in
        absurd (
          true≢false
            (sym (epoll.succeeds op n e k k' (ap (λ (b : Bool). (k', b)) passed)).0 ∙ closed))
    | inr failed ↦
        let k' = (ctl op n e k).0 in epoll.fails op n e k k' (ap (λ (b : Bool). (k', b)) failed)
  ]

  pub left_op-follows :
      (before e : Events)
      → registered k n ≡ interest before
      → (let left = without before e in
          ((m : ℕ)
            → registered (ctl (left_op left) n left k).0 m
              ≡ (if m == n then interest left else registered k m))
          ⊎ Refusal ctl registered k)
  left_op-follows before e synced =
      let left = without before e in
      elim (Bool-cases (is_none before)) [
        | inl nothing ↦
            let (no_read, no_write) = is_none_lem before nothing in
            let gone : is_none left ≡ true = rw (no_read, no_write) refl in
            let closed : accepts (left_op left) (registered k n) ≡ false =
              rw (synced, nothing, gone) refl in
            inl (λ m. disallowed (left_op left) left closed m ∙ elim (Bool-cases (m == n)) [
              | inl same ↦ rw (same, (==_iff m n).0 same, synced, nothing, gone) refl
              | inr differs ↦ rw (differs) refl
            ])
        | inr there ↦ elim (left_op-Watched ctl registered epoll n k before left synced there) [
          | inl (k', eq, f) ↦ inl (λ m. ap (λ (x : K × Bool). registered x.0 m) eq ∙ f m)
          | inr (failed, refusal) ↦ inr refusal
        ]
      ]
