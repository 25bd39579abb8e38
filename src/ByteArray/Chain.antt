-- ===== src/ByteArray/Chain.antt =====
-- The loops of seaice/bytearray.cpp over the chain of nodes, against the bytes of the chain in a row.
use seaice.Prelude.{
  ℕ, zero, suc, ◌+◌, ◌-◌, ◌*◌, ◌≤◌, ◌<◌, ◌≡◌, refl, sym, ap, ◌∙◌, List, [], ◌∷◌, ◌++◌, arith,
  length, take, drop, flatten, replicate, All, All-drop, length-append, length-take, length-drop,
  length-replicate, take-append-drop, take_all, take-append_le, take-append_ge, drop-append_le,
}
use seaice.Prelude.Bytes.{memcpy, memcpy-nil, memcpy-append_le, memcpy-append_across, length-memcpy}
use native.Mathlib.Decide.{dec_lt}
use seaice.ByteArray.{ok, sub_size, write_loop, read_loop, push_node, push_bytes}

-- Every node has the same number of bytes.
abbrev pub Equal : ℕ → List (List ℕ) → Type 0
Equal base = All (λ n. length n ≡ base)

pub length-flatten :
    (base : ℕ) (ns : List (List ℕ)) → Equal base ns → length (flatten ns) ≡ length ns * base
length-flatten base [] h = omega arith
length-flatten base (n ∷ ns) h =
    omega (arith, length-append n (flatten ns), length-flatten base ns h.1)

pub length-flatten-drop :
    (base c : ℕ) (ns : List (List ℕ))
    → Equal base ns
    → c ≤ length ns
    → c * base + length (flatten (drop c ns)) ≡ length ns * base
length-flatten-drop base c ns eq h =
    let split : c + length (drop c ns) ≡ length ns = omega (arith, length-drop c ns) in
    omega
      (arith, length-flatten base (drop c ns) (All-drop _ c ns eq), ap (λ (n : ℕ). n * base) split)

pub Equal-replicate : (base k a : ℕ) → Equal base (replicate k (replicate base a))
Equal-replicate base zero a = tt
Equal-replicate base (suc k) a = (length-replicate base a, Equal-replicate base k a)

-- What the loop of `write` does to the nodes from the cursor on.
pub record Written (base : ℕ) (ns : List (List ℕ)) (p : ℕ) (bs : List ℕ) (ns' : List (List ℕ))
    (steps : ℕ) : Type 0 where
  pub bytes : flatten ns' ≡ memcpy (flatten ns) p bs
  pub equal : Equal base ns'
  pub count : length ns' ≡ length ns
  pub lower : steps * base ≤ p + length bs - 1
  pub upper : p + length bs ≤ steps * base + base

-- The three ways through one round: the rest of the buffer ends inside the node, at its end, or
-- goes on in the next one.
write_loop_inside :
    (n : List ℕ) (ns : List (List ℕ)) (p x : ℕ) (src : List ℕ)
    → p + length (x ∷ src) < length n
    → write_loop (n ∷ ns) p (x ∷ src) ≡ ok (memcpy n p (x ∷ src) ∷ ns, 0)
unfolding write_loop
write_loop_inside n ns p x src h = ground arith

write_loop_end :
    (n : List ℕ) (ns : List (List ℕ)) (p x : ℕ) (src : List ℕ)
    → p + length (x ∷ src) ≡ length n
    → write_loop (n ∷ ns) p (x ∷ src) ≡ ok (memcpy n p (x ∷ src) ∷ ns, 0)
unfolding write_loop
write_loop_end n ns p x src h = ground (arith, take_all (length n - p) (x ∷ src) (omega arith))

write_loop_across :
    (n : List ℕ) (ns : List (List ℕ)) (p x c : ℕ) (src : List ℕ)
    → p + c ≡ length n
    → c < length (x ∷ src)
    → write_loop (n ∷ ns) p (x ∷ src)
      ≡ push_node (memcpy n p (take c (x ∷ src))) (write_loop ns 0 (drop c (x ∷ src)))
unfolding write_loop
write_loop_across n ns p x c src h g =
    let room : sub_size (length n) p ≡ c = ground arith in
    ground (
      arith,
      ap (λ (k : ℕ). push_node (memcpy n p (take k (x ∷ src))) (write_loop ns 0 (drop k (x ∷ src))))
          room,
    )

write_loop_fits :
    (n : List ℕ) (ns : List (List ℕ)) (p x : ℕ) (src : List ℕ)
    → p + length (x ∷ src) ≤ length n
    → write_loop (n ∷ ns) p (x ∷ src) ≡ ok (memcpy n p (x ∷ src) ∷ ns, 0)
write_loop_fits n ns p x src h = elim (dec_lt (p + length (x ∷ src)) (length n)) [
  | yes inside ↦ write_loop_inside n ns p x src inside
  | no other ↦ write_loop_end n ns p x src (omega arith)
]

pub write_loop_nil : (ns : List (List ℕ)) (p : ℕ) → write_loop ns p [] ≡ ok (ns, 0)
unfolding write_loop
write_loop_nil ns p = refl

pub Written-nil :
    (base : ℕ) (ns : List (List ℕ)) (p : ℕ) → Equal base ns → p ≤ base → Written base ns p [] ns 0
Written-nil base ns p eq hp = record {
  bytes = sym (memcpy-nil (flatten ns) p);
  equal = eq;
  count = refl;
  lower = omega arith;
  upper = omega arith;
}

Written-across :
    (base : ℕ) (n : List ℕ) (ns ns' : List (List ℕ)) (p c steps : ℕ) (s : List ℕ)
    → p + c ≡ base
    → c < length s
    → Equal base (n ∷ ns)
    → Written base ns 0 (drop c s) ns' steps
    → Written base (n ∷ ns) p s (memcpy n p (take c s) ∷ ns') (steps + 1)
Written-across base n ns ns' p c steps s hc more eq w =
    let first : length (take c s) ≡ c = omega (arith, length-take c s) in
    record {
      bytes =
          ap (◌++◌ (memcpy n p (take c s))) w.bytes
          ∙ sym (memcpy-append_across n (flatten ns) p (take c s) (drop c s) (omega arith))
          ∙ ap (memcpy (n ++ flatten ns) p) (take-append-drop c s);
      equal = (length-memcpy n p (take c s) (omega arith) ∙ eq.0, w.equal);
      count = ap suc w.count;
      lower = omega (arith, w.lower, length-drop c s);
      upper = omega (arith, w.upper, length-drop c s);
    }

pub write_loop-Written :
    (base : ℕ) (ns : List (List ℕ)) (p : ℕ) (bs : List ℕ)
    → Equal base ns
    → p < base
    → p + length bs ≤ length (flatten ns)
    → (ns' : List (List ℕ)) × (steps : ℕ) × (write_loop ns p bs ≡ ok (ns', steps))
      × Written base ns p bs ns' steps
write_loop-Written base ns p [] eq hp fits =
    (ns, 0, write_loop_nil ns p, Written-nil base ns p eq (omega arith))
write_loop-Written base [] p (x ∷ src) eq hp fits = absurd (omega arith)
write_loop-Written base (n ∷ ns) p (x ∷ src) eq hp fits =
    elim (dec_lt (base - p) (length (x ∷ src))) [
      | yes more ↦
          let s = x ∷ src in
          let (ns', steps, e, w) =
            write_loop-Written base ns 0 (drop (base - p) s) eq.1 (omega arith)
              (omega (arith, length-drop (base - p) s, length-append n (flatten ns))) in
          (
            memcpy n p (take (base - p) s) ∷ ns',
            steps + 1,
            write_loop_across n ns p x (base - p) src (omega arith) more
                ∙ ap (push_node (memcpy n p (take (base - p) s))) e,
            Written-across base n ns ns' p (base - p) steps s (omega arith) more eq w,
          )
      | no done ↦ (
        memcpy n p (x ∷ src) ∷ ns,
        0,
        write_loop_fits n ns p x src (omega arith),
        record {
          bytes = sym (memcpy-append_le n (flatten ns) p (x ∷ src) (omega arith));
          equal = (length-memcpy n p (x ∷ src) (omega arith) ∙ eq.0, eq.1);
          count = refl;
          lower = omega arith;
          upper = omega arith;
        },
      )
    ]

read_loop_inside :
    (n : List ℕ) (ns : List (List ℕ)) (p k : ℕ)
    → p + suc k < length n
    → read_loop (n ∷ ns) p (suc k) ≡ ok (take (suc k) (drop p (n ++ flatten ns)), 0)
unfolding read_loop
read_loop_inside n ns p k h = ground (
  arith,
  drop-append_le p n (flatten ns) (omega arith),
  take-append_le (suc k) (drop p n) (flatten ns) (omega (arith, length-drop p n)),
)

read_loop_across :
    (n : List ℕ) (ns : List (List ℕ)) (p c k : ℕ)
    → p + c ≡ length n
    → c ≤ suc k
    → read_loop (n ∷ ns) p (suc k) ≡ push_bytes (drop p n) (read_loop ns 0 (suc k - c))
unfolding read_loop
read_loop_across n ns p c k h g =
    let room : sub_size (length n) p ≡ c = ground arith in
    ground (
      arith,
      take_all c (drop p n) (omega (arith, length-drop p n)),
      ap (λ (j : ℕ). push_bytes (take j (drop p n)) (read_loop ns 0 (suc k - j))) room,
    )

read_loop_nil : (ns : List (List ℕ)) (p : ℕ) → read_loop ns p 0 ≡ ok ([], 0)
unfolding read_loop
read_loop_nil ns p = refl

-- The loop of `read` from a position inside the first node gives the bytes of the chain from there
-- on, and leaves the node pointer at the node of the byte behind them.
pub read_loop-chain :
    (base : ℕ) (ns : List (List ℕ)) (p k : ℕ)
    → Equal base ns
    → p < base
    → p + k ≤ length (flatten ns)
    → (steps : ℕ) × (read_loop ns p k ≡ ok (take k (drop p (flatten ns)), steps))
      × (steps * base ≤ p + k)
      × (p + k < steps * base + base)
read_loop-chain base ns p zero eq hp fits = (0, read_loop_nil ns p, omega arith, omega arith)
read_loop-chain base [] p (suc k) eq hp fits = absurd (omega arith)
read_loop-chain base (n ∷ ns) p (suc k) eq hp fits = elim (dec_lt (p + suc k) (length n)) [
  | yes inside ↦ (0, read_loop_inside n ns p k inside, omega arith, omega arith)
  | no beyond ↦
      let c = base - p in
      let left = suc k - c in
      let (steps, e, lower, upper) =
        read_loop-chain base ns 0 left eq.1 (omega arith)
          (omega (arith, length-append n (flatten ns))) in
      let value : take (suc k) (drop p (n ++ flatten ns)) ≡ drop p n ++ take left (flatten ns) =
        ap (take (suc k)) (drop-append_le p n (flatten ns) (omega arith))
        ∙ take-append_ge (suc k) left (drop p n) (flatten ns) (omega (arith, length-drop p n)) in
      (
        steps + 1,
        read_loop_across n ns p c k (omega arith) (omega arith)
            ∙ ap (push_bytes (drop p n)) e
            ∙ ap (λ (bs : List ℕ). ok (bs, steps + 1)) (sym value),
        omega arith,
        omega arith,
      )
]
