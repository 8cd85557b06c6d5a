-- ===== src/Fs/Examples.antt =====
-- Runs of the block allocator and of the walk over a path on a small disk.
use mathlib.Core.Path.{subst}
use mit6s.Base.{
  ◌↔◌, true, ℕ, ◌+◌, ◌/◌, ◌<◌, ◌≡◌, refl, sym, arith, false, Option, none, some, ◌==◌, ltb,
  if◌then◌else◌, List, [], ◌∷◌,
}
use mit6s.Fs.Blocks.{bpb, Superblock, Volume, balloc_from, find_bit, balloc, bfree}
use mit6s.Fs.Names.{
  skip_slashes, split_elem, skipelem, Dirs, Refs, dirlookup, same_name, namex_from, namex,
}
use mit6s.Fs.Search.{used}
use mit6s.Fs.Allocate.{MapUsed, BallocEnd, balloc-BallocEnd, bfree-balloc}
use mit6s.Fs.Resolve.{Leads}
use mit6s.Fs.Walk.{Returns, namex-Leads}
use mit6s.Fs.References.{WalkEnd, namex-WalkEnd}

-- 16 blocks, of which 3 holds the bitmap; 0 to 3 are in use.
abbrev small : Superblock
small = record { size = 16; bmapstart = 3 }

abbrev disk : Volume
disk = record { bytes = λ n i. if (n == 3) then (if i == 0 then 15 else 0) else 7; logged = [] }

small_map : MapUsed small disk
small_map y lt =
    let e : y / bpb + 3 ≡ 3 = omega arith in
    subst (λ n. (n < 16) × (used small disk n ≡ 1)) (sym e) (omega arith, refl)

balloc-BallocEnd_example : BallocEnd small disk (balloc small disk)
balloc-BallocEnd_example = balloc-BallocEnd small disk small_map

abbrev after : Option (ℕ × Volume) → Volume
after none = disk
after (some (x, t)) = t

balloc_test : balloc small disk ≡ some (4, after (balloc small disk))
unfolding balloc balloc_from find_bit
balloc_test = refl

bfree-balloc_example :
    (u : Volume) × (bfree small 4 (after (balloc small disk)) ≡ some u)
    × ((y : ℕ) → y < 16 → used small u y ≡ used small disk y)
bfree-balloc_example = bfree-balloc small disk (after (balloc small disk)) 4 small_map balloc_test

-- "//ab/c"
abbrev path : List ℕ
path = 47 ∷ 47 ∷ 97 ∷ 98 ∷ 47 ∷ 99 ∷ []

skipelem_test : skipelem path ≡ some (97 ∷ 98 ∷ [], 99 ∷ [])
unfolding skipelem skip_slashes split_elem
skipelem_test = refl

-- Inodes 1 and 2 are directories: "ab" in 1 is 2 and "c" in 2 is 3; 0 is an empty slot.
abbrev tree : Dirs
tree = record {
  is_dir = λ i. ltb i 3;
  entries = λ i.
      if i == 1
      then record { inum = 0; name = 97 ∷ 98 ∷ [] } ∷ record { inum = 2; name = 97 ∷ 98 ∷ [] } ∷ []
      else record { inum = 3; name = 99 ∷ [] } ∷ [];
}

abbrev no_refs : Refs
no_refs i = 0

namex-WalkEnd_example : WalkEnd no_refs (namex tree true path 2 no_refs)
namex-WalkEnd_example = namex-WalkEnd tree true path 2 no_refs

namex-Leads_example : Returns 3 (namex tree false path 2 no_refs) ↔ Leads tree path 1 3
namex-Leads_example = namex-Leads tree path 2 no_refs 3

namex_test : Returns 3 (namex tree false path 2 no_refs)
unfolding namex namex_from skipelem skip_slashes split_elem dirlookup same_name
namex_test = (99 ∷ [], _, refl)
