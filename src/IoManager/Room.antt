-- ===== src/IoManager/Room.antt =====
-- `resizeFdContext` of seaice/iomanager.cpp makes room and keeps what there is.
use seaice.Prelude.{
  ℕ, ◌+◌, ◌-◌, ◌*◌, ◌/◌, ◌≤◌, ◌<◌, ◌≡◌, refl, ◌∙◌, ap, ◌++◌, List, ltb, length, get_or, take_all,
  length-append, length-replicate, arith, Bool-cases, ltb→lt, ltb→le, get_or-append, inl, inr,
}
use seaice.IoManager.{FdContext, new_context, fresh, resize_fd_context}

-- What `resizeFdContext` gives: a place for `n`, and the contexts there were.
pub record Room (n : ℕ) (cs after : List FdContext) : Type 0 where
  pub inside : n < length after
  pub longer : length cs ≤ length after
  pub same : (m : ℕ) → get_or after m new_context ≡ get_or cs m new_context

pub resize_fd_context-Room :
    (n : ℕ) (cs : List FdContext) → 2 ≤ length cs → Room n cs (resize_fd_context n cs)
unfolding resize_fd_context
resize_fd_context-Room n cs long = elim (Bool-cases (ltb n (length cs))) [
  | inl inside ↦
      rw (inside)
        (record { inside = ltb→lt n (length cs) inside; longer = omega arith; same = λ m. refl })
  | inr outside ↦
      let beyond = ltb→le n (length cs) outside in
      let k = n * 3 / 2 - length cs in
      let size : length (cs ++ fresh k) ≡ length cs + k =
        length-append cs (fresh k)
        ∙ ap (λ (c : ℕ). length cs + c) (length-replicate k new_context) in
      rw (outside, take_all (n * 3 / 2) cs (omega arith))
        (record {
          inside = omega (arith, size);
          longer = omega (arith, size);
          same = λ m. get_or-append cs k m new_context;
        })
]
