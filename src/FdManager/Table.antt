-- ===== src/FdManager/Table.antt =====
-- What `get` and `del` do to the table of descriptors.
use native.Mathlib.Decide.{dec_lt}
use seaice.Prelude.{
  get_or-set_same, get_or-set_other, get_or-append, length-set, ℕ, ◌+◌, ◌-◌, ◌*◌, ◌/◌, ◌≤◌, ◌<◌,
  ◌≡◌, ◌≢◌, refl, ◌∙◌, ap, sym, subst, ◌++◌, Bool, true, false, Option, none, some, arith, leb,
  if◌then◌else◌, length, get_or, set, replicate, take_all, length-append, length-replicate, lt→ltb,
}
use seaice.FdManager.{
  FdCtx, FileStatus, new_ctx, fd, Datas, done, out_of_bounds, resize, create, get, del,
}

-- The table as `create` has it before it stores the context.
abbrev grown : ℕ → Datas → Datas
grown n datas = if leb (length datas) n then resize (n * 3 / 2) datas else datas

-- What `grown` gives: room for `n`, and the entries there were.
record Room (n : ℕ) (datas g : Datas) : Type 0 where
  inside : n < length g
  longer : length datas ≤ length g
  kept : (m : ℕ) → get_or g m none ≡ get_or datas m none

grown_lem : (n : ℕ) (datas : Datas) → 2 ≤ length datas → Room n datas (grown n datas)
grown_lem n datas h = elim (dec_lt n (length datas)) [
  | yes inside ↦
      let test : leb (length datas) n ≡ false = ground arith in
      subst (Room n datas)
        (sym (ap (λ (b : Bool). if b then resize (n * 3 / 2) datas else datas) test))
        (record { inside = inside; longer = omega arith; kept = λ m. refl })
  | no outside ↦
      let test : leb (length datas) n ≡ true = ground arith in
      let k = n * 3 / 2 - length datas in
      let longer : Datas = datas ++ replicate k none in
      let size : length longer ≡ length datas + k =
        length-append datas (replicate k none)
        ∙ ap (λ (c : ℕ). length datas + c) (length-replicate k none) in
      subst (Room n datas)
        (sym (
          ap (λ (b : Bool). if b then resize (n * 3 / 2) datas else datas) test
          ∙ ap (λ (front : Datas). front ++ replicate k none)
              (take_all (n * 3 / 2) datas (omega arith))))
        (record {
          inside = omega (arith, size);
          longer = omega (arith, size);
          kept = λ m. get_or-append datas k m none;
        })
]

-- A context has been made for `n`: it is what `get` returns and what the table has at `n`, every
-- other entry is as it was, and the table is not shorter.
pub record Created (fstat : ℕ → FileStatus) (n : ℕ) (before after : Datas) : Type 0 where
  pub stored : get_or after n none ≡ some (new_ctx fstat n)
  pub others : (m : ℕ) → n ≢ m → get_or after m none ≡ get_or before m none
  pub longer : length before ≤ length after

create_lem :
    (fstat : ℕ → FileStatus) (n : ℕ) (datas : Datas)
    → 2 ≤ length datas
    → (after : Datas) × (create fstat n datas ≡ (after, done (some (new_ctx fstat n))))
      × Created fstat n datas after
unfolding create
create_lem fstat n datas h =
    let g = grown n datas in
    let room = grown_lem n datas h in
    let ctx : Option FdCtx = some (new_ctx fstat n) in
    (
      set g n ctx,
      ap (λ (b : Bool). if b then (set g n ctx, done ctx) else (g, out_of_bounds))
          (lt→ltb n (length g) room.inside),
      record {
        stored = get_or-set_same g n ctx none room.inside;
        others = λ m o. get_or-set_other g n m ctx none o ∙ room.kept m;
        longer = omega (arith, room.longer, length-set g n ctx);
      },
    )

-- In a table of at least two entries, for a descriptor other than the table's size that has no
-- context, `get` with `auto_create` returns a new context, the table then has it at the
-- descriptor, and all other entries are as before.
pub get-creates :
    (fstat : ℕ → FileStatus) (n : ℕ) (datas : Datas)
    → 2 ≤ length datas
    → n ≢ length datas
    → get_or datas n none ≡ none
    → (after : Datas) × (get fstat (fd n) true datas ≡ (after, done (some (new_ctx fstat n))))
      × Created fstat n datas after
unfolding get
get-creates fstat n datas h o empty =
    let (after, e, c) = create_lem fstat n datas h in (after, get-create ∙ e, c)
  where
    get-create : get fstat (fd n) true datas ≡ create fstat n datas
    get-create = ground (arith, empty, o)

-- For a descriptor with a context, `get` returns this context and leaves the table, with
-- `auto_create` and without.
pub get-finds :
    (fstat : ℕ → FileStatus) (n : ℕ) (auto_create : Bool) (datas : Datas) (ctx : FdCtx)
    → n < length datas
    → get_or datas n none ≡ some ctx
    → get fstat (fd n) auto_create datas ≡ (datas, done (some ctx))
unfolding get
get-finds fstat n auto_create datas ctx h e = ground (arith, e)

-- `get` of the descriptor that equals the table's size goes past the end of the table.
pub get-past_end :
    (fstat : ℕ → FileStatus) (auto_create : Bool) (datas : Datas)
    → get fstat (fd (length datas)) auto_create datas ≡ (datas, out_of_bounds)
unfolding get
get-past_end fstat auto_create datas = ground arith

-- After `del` of a descriptor within the table, `get` without `auto_create` returns a null
-- pointer for it, and all other entries are as before.
pub get-del :
    (fstat : ℕ → FileStatus) (n : ℕ) (datas : Datas)
    → n < length datas
    → (after : Datas) × (del (fd n) datas ≡ (after, done tt))
      × (get fstat (fd n) false after ≡ (after, done none))
      × ((m : ℕ) → n ≢ m → get_or after m none ≡ get_or datas m none)
unfolding del get
get-del fstat n datas h =
    let gone : get_or (set datas n none) n none ≡ none = get_or-set_same datas n none none h in
    (
      set datas n none,
      ground arith,
      ground (arith, gone, length-set datas n none),
      λ m o. get_or-set_other datas n m none none o,
    )
