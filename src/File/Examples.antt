-- ===== src/File/Examples.antt =====
-- A table with one pipe that is held twice: tests, and the theorems at work on it.
use mit6s.Base.{◌≡◌, refl, arith, [], ◌∷◌, true, false, some, ◌==◌, if◌then◌else◌}
use mit6s.File.{File, fd_none, fd_pipe, Ftable, filealloc, alloc_from, filedup, fileclose, Closing}
use mit6s.File.Holders.{World, Counted, here, next, dups, Closes, Reach-Counted, close-Closes}

abbrev blank : File
blank = record {
  type = fd_none;
  ref = 0;
  readable = false;
  writable = false;
  pipe = 0;
  ip = 0;
  off = 0;
  major = 0;
}

abbrev table : Ftable
table = record {
  lock = false;
  file = λ f.
      if f == 3 then record blank { type = fd_pipe; ref = 2; writable = true; pipe = 8 } else blank;
}

abbrev world : World
world = record { table = table; holders = 3 ∷ 3 ∷ [] }

world-Counted : Counted world
world-Counted f = ground arith

alloc_result : (filealloc table).0 ≡ some 0
unfolding filealloc alloc_from
alloc_result = refl

close-Closes_example :
    (c : Closing) × (t : Ftable) × (fileclose 3 table ≡ some (c, t))
    × Closes 3 (3 ∷ []) [] table c t
close-Closes_example = close-Closes table (3 ∷ []) [] 3 here world-Counted

abbrev after : Ftable
after = record {
  lock = false;
  file = λ f.
      if 3 == f
      then record blank { type = fd_pipe; ref = 3; writable = true; pipe = 8 }
      else table.file f;
}

dup_result : filedup 3 table ≡ some after
unfolding filedup
dup_result = refl

Reach-Counted_example : Counted (record { table = after; holders = 3 ∷ 3 ∷ 3 ∷ [] })
Reach-Counted_example =
    Reach-Counted (next here (dups table after (3 ∷ []) [] 3 dup_result)) world-Counted
