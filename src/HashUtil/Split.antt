-- ===== src/HashUtil/Split.antt =====
-- `replace` and `split` of seaice/util/hash_util.cpp, by positions in the text as the code has them.
pub mod Replace
pub mod Fields
pub mod Join
use seaice.Prelude.{
  ℕ, zero, suc, ◌+◌, ◌-◌, ◌%◌, ◌^◌, List, [], ◌∷◌, ◌++◌, Option, none, some, ltb, ◌==◌,
  if◌then◌else◌, length, take, drop, set,
}

-- `str.find(c, pos)`; `none` is `npos`. The text from `pos` on is searched.
pub find_in : ℕ → List ℕ → ℕ → Option ℕ
find_in c [] pos = none
find_in c (x ∷ xs) pos = let rest = find_in c xs (pos + 1) in if x == c then some pos else rest

abbrev pub find : List ℕ → ℕ → ℕ → Option ℕ
unfolding find_in
find str c pos = find_in c (drop pos str) pos

-- The loop of `replace` for two characters, by the rounds left.
pub replace_loop : ℕ → ℕ → ℕ → List ℕ → Option ℕ → List ℕ
unfolding find_in
replace_loop rounds c by str none = str
replace_loop zero c by str (some index) = str
replace_loop (suc rounds) c by str (some index) =
    replace_loop rounds c by (set str index by) (find (set str index by) c (index + 1))

-- Every round goes on behind the last place, so as many rounds as characters are enough.
unfoldable pub replace : List ℕ → ℕ → ℕ → List ℕ
unfolding replace_loop find_in
replace str c by = replace_loop (length str) c by str (find str c 0)

-- The loop of `replace` for a character and a string.
pub replace_string_loop : ℕ → ℕ → List ℕ → List ℕ → Option ℕ → List ℕ
unfolding find_in
replace_string_loop rounds c by str none = str
replace_string_loop zero c by str (some index) = str
replace_string_loop (suc rounds) c by str (some index) =
    let str' = take index str ++ (by ++ drop (index + 1) str) in
    replace_string_loop rounds c by str' (find str' c (index + length by))

unfoldable pub replace_string : List ℕ → ℕ → List ℕ → List ℕ
unfolding replace_string_loop find_in
replace_string str c by = replace_string_loop (length str) c by str (find str c 0)

-- The loop of `split` behind its test for an empty text: `max` is a `size_t`, which `--max` takes
-- from 0 to its greatest value.
pub split_loop : ℕ → List ℕ → ℕ → ℕ → ℕ → Option ℕ → List (List ℕ)
unfolding find_in
split_loop rounds str delim max last none = drop last str ∷ []
split_loop zero str delim max last (some pos) = drop last str ∷ []
split_loop (suc rounds) str delim max last (some pos) =
    let max' = (max + 2 ^ 64 - 1) % 2 ^ 64 in
    let rest = split_loop rounds str delim max' (pos + 1) (find str delim (pos + 1)) in
    take (pos - last) (drop last str) ∷ (if max' == 1 then drop (pos + 1) str ∷ [] else rest)

unfoldable pub split : List ℕ → ℕ → ℕ → List (List ℕ)
unfolding split_loop find_in
split str delim max =
    if length str == 0 then [] else split_loop (length str) str delim max 0 (find str delim 0)
