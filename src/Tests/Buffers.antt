-- ===== src/Tests/Buffers.antt =====
-- Runs of the byte buffer of seaice/bytearray.cpp: buffers with nodes of four bytes.
use seaice.Prelude.{ℕ, ◌≡◌, refl, List, [], ◌∷◌, inl, arith}
use seaice.Endian.{big}
use seaice.ByteArray.{ByteArray, ok, new, write, read, set_pos}
use seaice.ByteArray.State.{IsValid}
use seaice.ByteArray.Capacity.{Same}
use seaice.ByteArray.Write.{Wrote, write-Wrote}
use seaice.ByteArray.Append.{Appending, write-Appending}
use seaice.ByteArray.Buffers.{Iovec, get_read_buffers, gathered}
use seaice.ByteArray.Buffers.Gather.{get_read_buffers-Reading}
use seaice.ByteArray.Read.{Reading, read-Reading}
use seaice.ByteArray.Position.{set_pos_lem}

abbrev hello : List ℕ
hello = 104 ∷ 101 ∷ 108 ∷ 108 ∷ 111 ∷ []

-- After a write of `hello` to a new buffer, and `setPos(0)`.
abbrev loaded : ByteArray
loaded = record {
  base_size = 4;
  pos = 0;
  cap = 8;
  size = 5;
  endian = big;
  nodes = (104 ∷ 101 ∷ 108 ∷ 108 ∷ []) ∷ (111 ∷ 7 ∷ 7 ∷ 7 ∷ []) ∷ [];
  cur = 0;
  fill = 7;
}

loaded-IsValid : IsValid loaded
loaded-IsValid = record {
  base_pos = omega arith;
  rooted = omega arith;
  equal = (refl, (refl, tt));
  cap_eq = refl;
  pos_le = omega arith;
}

loaded-Reading : Reading loaded hello
loaded-Reading = record {
  valid = loaded-IsValid;
  lower = omega arith;
  upper = omega arith;
  written = omega arith;
  inside = omega arith;
  unread = refl;
}

-- The same with `m_pos` at the end of what is written.
abbrev filled : ByteArray
filled = record loaded { pos = 5; cur = 1 }

filled-Appending : Appending filled hello
filled-Appending = record {
  ready = record {
    valid = record {
      base_pos = omega arith;
      rooted = omega arith;
      equal = (refl, (refl, tt));
      cap_eq = refl;
      pos_le = omega arith;
    };
    here = omega arith;
    lower = omega arith;
    upper = omega arith;
    room = inl (omega arith);
  };
  last = refl;
  at_end = refl;
  long = refl;
  holds = refl;
}

write-run : write hello (new 4 7) ≡ (filled, ok tt)
unfolding write new
write-run = refl

read-run : read 5 loaded ≡ (filled, ok hello)
unfolding read
read-run = refl

write-Wrote_example : (c : ByteArray) × (write hello filled ≡ (c, ok tt)) × Wrote filled hello c
write-Wrote_example = write-Wrote hello filled filled-Appending.ready

write-Appending_example :
    (c : ByteArray) × (write hello filled ≡ (c, ok tt))
    × Appending c (104 ∷ 101 ∷ 108 ∷ 108 ∷ 111 ∷ hello)
    × Same filled c
write-Appending_example = write-Appending hello filled hello filled-Appending

read-Reading_example :
    (c : ByteArray) × (read 2 loaded ≡ (c, ok (104 ∷ 101 ∷ [])))
    × Reading c (108 ∷ 108 ∷ 111 ∷ [])
    × Same loaded c
read-Reading_example =
    read-Reading 2 loaded (104 ∷ 101 ∷ []) (108 ∷ 108 ∷ 111 ∷ []) loaded-Reading refl

set_pos_lem_example : set_pos 6 loaded ≡ (record loaded { pos = 6; size = 6; cur = 1 }, ok tt)
set_pos_lem_example = set_pos_lem 6 loaded loaded-IsValid

get_read_buffers-Reading_example :
    (vs : List Iovec) × (get_read_buffers 100 loaded ≡ ok vs) × (gathered loaded.nodes vs ≡ hello)
get_read_buffers-Reading_example = get_read_buffers-Reading 100 loaded hello loaded-Reading
