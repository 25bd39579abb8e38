-- ===== src/Stream/Exchange.antt =====
-- `readFixSize` and `writeFixSize` as their callers use them, with the test `rt <= 0` after each call,
-- and what such calls take from a stream and give to it.
use seaice.Prelude.{
  ℕ, ◌%◌, ◌^◌, ◌<◌, ◌≡◌, refl, ◌∙◌, ap, sym, List, [], ◌++◌, append_assoc, append-nil, Bool, ◌&&◌,
  ltb, if◌then◌else◌, length, take, drop, arith, length-append, take-append_ge, drop-append_ge,
}
use seaice.Stream.{
  Received, Sent, Outcome, complete, closed, failed, unfinished, read_fix_size, write_fix_size,
}
use seaice.Stream.Complete.{IsSource, IsTarget, read_fix_size-complete, write_fix_size-complete}

-- What a step gives: a value, or that the caller leaves its loop; `stuck` is a loop that takes more
-- rounds than there are bytes, and `thrown` an exception or an access that is not defined.
pub data Got (A : Type 0) : Type 0 where
  got : A → Got A
  broken : Got A
  stuck : Got A
  thrown : Got A

abbrev pub Io : Type 0 → Type 0 → Type 0
Io S A = S → S × Got A

abbrev pub and_then : {S A B : Type 0} → S × Got A → (A → Io S B) → S × Got B
and_then (s, got a) k = k a s
and_then (s, broken) k = (s, broken)
and_then (s, stuck) k = (s, stuck)
and_then (s, thrown) k = (s, thrown)

infixl 5 ◌>>=◌ ◌>>◌
abbrev pub ◌>>=◌ : {S A B : Type 0} → Io S A → (A → Io S B) → Io S B
◌>>=◌ m k s = and_then (m s) k

abbrev pub ◌>>◌ : {S B : Type 0} → Io S (Unit {0}) → Io S B → Io S B
m >> k = m >>= λ _. k

abbrev pub return : {S A : Type 0} → A → Io S A
return a s = (s, got a)

abbrev pub break : {S A : Type 0} → Io S A
break s = (s, broken)

-- The `int` that the loops return for a length is positive.
abbrev pub is_positive : ℕ → Bool
is_positive n = ltb 0 (n % 2 ^ 32) && ltb (n % 2 ^ 32) (2 ^ 31)

abbrev pub tested : {S A : Type 0} → ℕ → S × Outcome A → S × Got A
tested n (s, complete a) = (s, if is_positive n then got a else broken)
tested n (s, closed) = (s, broken)
tested n (s, failed e) = (s, broken)
tested n (s, unfinished) = (s, stuck)

unfoldable pub read_fix : {S : Type 0} → (ℕ → S → S × Received) → ℕ → Io S (List ℕ)
read_fix read n s = tested n (read_fix_size read n n s)

unfoldable pub write_fix : {S : Type 0} → (List ℕ → S → S × Sent) → List ℕ → Io S (Unit {0})
write_fix write bs s = tested (length bs) (write_fix_size write (length bs) bs s)

module _ {S : Type 0} where
  -- The step succeeds with `a` wherever `bs` comes first, and takes just these bytes.
  abbrev pub Takes : {A : Type 0} → (S → List ℕ) → Io S A → List ℕ → A → Type 0
  Takes ahead m bs a =
      (s : S) (rest : List ℕ)
      → ahead s ≡ bs ++ rest
      → (t : S) × (m s ≡ (t, got a)) × (ahead t ≡ rest)

  -- The step succeeds with `a` and has the stream take `bs`.
  abbrev pub Gives : {A : Type 0} → (S → List ℕ) → Io S A → List ℕ → A → Type 0
  Gives taken m bs a = (s : S) → (t : S) × (m s ≡ (t, got a)) × (taken t ≡ taken s ++ bs)

  pub Takes->>= :
      {A B : Type 0} (ahead : S → List ℕ) (m : Io S A) (k : A → Io S B) (bs cs : List ℕ) (a : A)
      (b : B)
      → Takes ahead m bs a
      → Takes ahead (k a) cs b
      → Takes ahead (m >>= k) (bs ++ cs) b
  Takes->>= {A} ahead m k bs cs a b hm hk s rest p =
      let (t, e, left) = hm s (cs ++ rest) (p ∙ append_assoc bs cs rest) in
      let (u, f, end) = hk t rest left in (u, ap (λ (x : S × Got A). and_then x k) e ∙ f, end)

  pub Takes-return : {A : Type 0} (ahead : S → List ℕ) (a : A) → Takes ahead (return a) [] a
  Takes-return ahead a s rest p = (s, refl, p)

  pub Gives->>= :
      {A B : Type 0} (taken : S → List ℕ) (m : Io S A) (k : A → Io S B) (bs cs : List ℕ) (a : A)
      (b : B)
      → Gives taken m bs a
      → Gives taken (k a) cs b
      → Gives taken (m >>= k) (bs ++ cs) b
  Gives->>= {A} taken m k bs cs a b hm hk s =
      let (t, e, left) = hm s in
      let (u, f, end) = hk t in
      (
        u,
        ap (λ (x : S × Got A). and_then x k) e ∙ f,
        end ∙ ap (λ (l : List ℕ). l ++ cs) left ∙ append_assoc (taken s) bs cs,
      )

  pub Gives-return : {A : Type 0} (taken : S → List ℕ) (a : A) → Gives taken (return a) [] a
  Gives-return taken a s = (s, refl, sym (append-nil (taken s)))

  pub read_fix-Takes :
      (read : ℕ → S → S × Received) (ahead : S → List ℕ)
      → IsSource read ahead
      → (n : ℕ) (bs : List ℕ) → length bs ≡ n
      → 0 < n
      → n < 2 ^ 31
      → Takes ahead (read_fix read n) bs bs
  unfolding read_fix
  read_fix-Takes read ahead h n bs len pos small s rest p =
      let (t, e, left) =
        read_fix_size-complete read ahead h n n s (omega arith)
          (omega (arith, ap length p, length-append bs rest)) in
      let first : take n (ahead s) ≡ bs =
        ap (take n) p ∙ take-append_ge n 0 bs rest (omega (arith, len)) ∙ append-nil bs in
      (
        t,
        ap (tested n) e ∙ ap (λ (l : List ℕ). tested n (t, complete l)) first ∙ ground arith,
        left ∙ ap (drop n) p ∙ drop-append_ge n 0 bs rest (omega (arith, len)),
      )

  pub write_fix-Gives :
      (write : List ℕ → S → S × Sent) (taken : S → List ℕ)
      → IsTarget write taken
      → (bs : List ℕ) → 0 < length bs
      → length bs < 2 ^ 31
      → Gives taken (write_fix write bs) bs tt
  unfolding write_fix
  write_fix-Gives write taken h bs pos small s =
      let (t, e, all) =
        write_fix_size-complete write taken h (length bs) bs s (omega arith) small in
      (t, ap (tested (length bs)) e ∙ ground arith, all)
