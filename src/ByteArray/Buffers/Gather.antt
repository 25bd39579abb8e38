-- ===== src/ByteArray/Buffers/Gather.antt =====
-- The parts that `getReadBuffers` gives are the bytes that `read` would give.
use native.Mathlib.Decide.{dec_lt}
use seaice.Prelude.{
  ℕ, zero, suc, ◌+◌, ◌-◌, ◌%◌, ◌≤◌, ◌<◌, ◌≡◌, refl, ◌∙◌, ap, sym, subst, List, [], ◌∷◌, ◌++◌,
  append_assoc, append-nil, arith, Bool, true, false, ltb, if◌then◌else◌, ◌==◌, length, take, drop,
  get_or, lt→ltb, le→ltb, take_all, take-append-drop, length-append, length-take,
}
use seaice.ByteArray.{
  ByteArray, Result, ok, err, crash, sub_size, read_loop, push_bytes, get_read_size,
}
use seaice.ByteArray.Read.{Reading, length-unread, cur_le, read_loop-Reading}
use seaice.ByteArray.Buffers.{
  Iovec, push_iovec, iovec_loop, iovecs_at_pos, get_read_buffers, iovec_bytes, gathered,
}

get_or-append :
    (front ns : List (List ℕ)) (n : List ℕ) (i : ℕ)
    → i ≡ length front
    → get_or (front ++ n ∷ ns) i [] ≡ n
get_or-append [] ns n i h = ap (λ (k : ℕ). get_or (n ∷ ns) k []) h
get_or-append (f ∷ front) ns n zero h = absurd (omega arith)
get_or-append (f ∷ front) ns n (suc i) h = get_or-append front ns n i (omega arith)

-- What a loop over the nodes behind `front` gives, against what the loop of `read` gives.
Agrees : List (List ℕ) → Result (List ℕ × ℕ) → Result (List Iovec) → Type 0
Agrees all (ok (bs, steps)) (ok vs) = gathered all vs ≡ bs
Agrees all (ok (bs, steps)) (err e) = ⊥
Agrees all (err e) vs = Unit

Agrees-push :
    (all : List (List ℕ)) (v : Iovec) (bs : List ℕ) (r : Result (List ℕ × ℕ))
    (vs : Result (List Iovec))
    → iovec_bytes all v ≡ bs
    → Agrees all r vs
    → Agrees all (push_bytes bs r) (push_iovec v vs)
unfolding Agrees
Agrees-push all v bs (ok (cs, steps)) (ok vs) e h =
    ap (λ (xs : List ℕ). xs ++ gathered all vs) e ∙ ap (λ (xs : List ℕ). bs ++ xs) h
Agrees-push all v bs (ok (cs, steps)) (err x) e h = h
Agrees-push all v bs (err x) vs e h = tt

iovec_loop-Agrees :
    (front ns : List (List ℕ)) (i p k : ℕ)
    → i ≡ length front
    → Agrees (front ++ ns) (read_loop ns p k) (iovec_loop ns i p k)
unfolding iovec_loop read_loop Agrees
iovec_loop-Agrees front ns i p zero h = refl
iovec_loop-Agrees front [] i p (suc k) h = tt
iovec_loop-Agrees front (n ∷ ns) i p (suc k) h =
    let c = sub_size (length n) p in
    choose (ltb (suc k) c) (front ++ n ∷ ns) n i c p k (get_or-append front ns n i h)
      (read_loop ns 0 (suc k - c)) (iovec_loop ns (i + 1) 0 (suc k - c))
      (subst
        (λ (all : List (List ℕ)).
          Agrees all (read_loop ns 0 (suc k - c)) (iovec_loop ns (i + 1) 0 (suc k - c)))
        (append_assoc front (n ∷ []) ns)
        (iovec_loop-Agrees (front ++ n ∷ []) ns (i + 1) 0 (suc k - c)
          (omega (arith, length-append front (n ∷ [])))))
  where
    choose :
        (b : Bool) (all : List (List ℕ)) (n : List ℕ) (i c p k : ℕ)
        → get_or all i [] ≡ n
        → (r : Result (List ℕ × ℕ)) (vs : Result (List Iovec)) → Agrees all r vs
        → Agrees all
            (if b then ok (take (suc k) (drop p n), 0) else push_bytes (take c (drop p n)) r)
            (if b
              then ok (record { node = i; offset = p; len = suc k } ∷ [])
              else push_iovec (record { node = i; offset = p; len = c }) vs)
    choose true all n i c p k e r vs a =
        append-nil (take (suc k) (drop p (get_or all i [])))
        ∙ ap (λ (m : List ℕ). take (suc k) (drop p m)) e
    choose false all n i c p k e r vs a =
        Agrees-push all (record { node = i; offset = p; len = c }) (take c (drop p n)) r vs
          (ap (λ (m : List ℕ). take c (drop p m)) e) a

Agrees-ok :
    (all : List (List ℕ)) (r : Result (List ℕ × ℕ)) (vs : Result (List Iovec)) (bs : List ℕ)
    (steps : ℕ)
    → r ≡ ok (bs, steps)
    → Agrees all r vs
    → (found : List Iovec) × (vs ≡ ok found) × (gathered all found ≡ bs)
unfolding Agrees
Agrees-ok all r vs bs steps e a =
    unpack vs (subst (λ (o : Result (List ℕ × ℕ)). Agrees all o vs) e a)
  where
    unpack :
        (vs : Result (List Iovec))
        → Agrees all (ok (bs, steps)) vs
        → (found : List Iovec) × (vs ≡ ok found) × (gathered all found ≡ bs)
    unpack (ok found) a = (found, refl, a)
    unpack (err x) a = absurd a

base_nonzero : (base : ℕ) → 0 < base → (base == 0) ≡ false
base_nonzero base h = ground arith

iovecs_at_pos-Reading :
    (n : ℕ) (b : ByteArray) (text : List ℕ)
    → Reading b text
    → n ≤ length text
    → (vs : List Iovec) × (iovecs_at_pos n b ≡ ok vs) × (gathered b.nodes vs ≡ take n text)
unfolding iovecs_at_pos
iovecs_at_pos-Reading n b text r h =
    let (steps, e, lower, upper) = read_loop-Reading n b text r h in
    let here : b.cur ≤ length b.nodes = cur_le b text r in
    let (vs, found, bytes) =
      Agrees-ok b.nodes (read_loop (drop b.cur b.nodes) (b.pos % b.base_size) n)
        (iovec_loop (drop b.cur b.nodes) b.cur (b.pos % b.base_size) n) (take n text) steps e
        (subst
          (λ (all : List (List ℕ)).
            Agrees all (read_loop (drop b.cur b.nodes) (b.pos % b.base_size) n)
              (iovec_loop (drop b.cur b.nodes) b.cur (b.pos % b.base_size) n))
          (take-append-drop b.cur b.nodes)
          (iovec_loop-Agrees (take b.cur b.nodes) (drop b.cur b.nodes) b.cur (b.pos % b.base_size) n
            (omega (arith, length-take b.cur b.nodes)))) in
    (
      vs,
      ap
            (λ (none : Bool).
              if none
              then err crash
              else iovec_loop (drop b.cur b.nodes) b.cur (b.pos % b.base_size) n)
            (base_nonzero b.base_size r.valid.base_pos)
          ∙ found,
      bytes,
    )

-- The length cut to what is unread.
abbrev cut_to : ℕ → ℕ → ℕ
cut_to size len = if ltb size len then size else len

take-cut_to : (len : ℕ) (text : List ℕ) → take (cut_to (length text) len) text ≡ take len text
take-cut_to len text = elim (dec_lt (length text) len) [
  | yes more ↦
      ap (λ (b : Bool). take (if b then length text else len) text) (lt→ltb (length text) len more)
      ∙ take_all (length text) text (omega arith)
      ∙ sym (take_all len text (omega arith))
  | no fits ↦
      ap (λ (b : Bool). take (if b then length text else len) text)
        (le→ltb (length text) len (omega arith))
]

cut_to_le : (size len : ℕ) → cut_to size len ≤ size
cut_to_le size len = ground arith

unless_none :
    (n : ℕ) (b : ByteArray) (text : List ℕ)
    → Reading b text
    → n ≤ length text
    → (vs : List Iovec) × ((if n == 0 then ok [] else iovecs_at_pos n b) ≡ ok vs)
      × (gathered b.nodes vs ≡ take n text)
unless_none zero b text r h = ([], refl, refl)
unless_none (suc n) b text r h =
    let (vs, e, bytes) = iovecs_at_pos-Reading (suc n) b text r h in (vs, ground (arith, e), bytes)

-- `getReadBuffers` on a buffer whose cursor stands at the node of `m_pos` succeeds for every
-- length, and the parts of the nodes that it gives hold, in their order, the unread bytes up to
-- this length.
pub get_read_buffers-Reading :
    (len : ℕ) (b : ByteArray) (text : List ℕ)
    → Reading b text
    → (vs : List Iovec) × (get_read_buffers len b ≡ ok vs) × (gathered b.nodes vs ≡ take len text)
unfolding get_read_buffers
get_read_buffers-Reading len b text r =
    let size : length text ≡ get_read_size b = ground (arith, length-unread b text r, r.written) in
    let (vs, e, bytes) =
      unless_none (cut_to (length text) len) b text r (cut_to_le (length text) len) in
    (
      vs,
      ap (λ (m : ℕ). if cut_to m len == 0 then ok [] else iovecs_at_pos (cut_to m len) b) (sym size)
          ∙ e,
      bytes ∙ take-cut_to len text,
    )
