-- ===== src/Fs/References.antt =====
-- What the walk of `namex` does to the reference counts of inodes.
use mit6s.Base.{
  ℕ, zero, suc, ◌+◌, ◌<◌, ◌≡◌, inl, inr, refl, arith, Bool, ◌&&◌, Option, none, some, if◌then◌else◌,
  List, [], length, Bool-cases,
}
use mit6s.Fs.Names.{
  dirlookup, skipelem, Dirs, Refs, get_ref, put_ref, is_nil, Found, namex_round, namex_from,
  start_of, namex,
}
use mit6s.Fs.Elements.{SkipEnd, Taken, skipelem-SkipEnd, Taken-shorter}

-- The counts before and after: a walk that finds nothing has given back all it took, and one that
-- finds an inode has one reference to it. It does not run out of fuel.
abbrev pub WalkEnd : Refs → Option (Found × Refs) → Type 0
WalkEnd r none = ⊥
WalkEnd r (some (none, t)) = (j : ℕ) → t j ≡ r j
WalkEnd r (some (some (i, name), t)) = (j : ℕ) → t j ≡ get_ref i r j

-- The walk holds one reference, to the inode where it is.
abbrev Holds : Refs → ℕ → Refs → Type 0
Holds r ip t = (j : ℕ) → t j ≡ get_ref ip r j

put_ref-get_ref : (ip : ℕ) (r t : Refs) → Holds r ip t → (j : ℕ) → put_ref ip t j ≡ r j
put_ref-get_ref ip r t h j = let e = h j in ground arith

Holds-next : (ip next : ℕ) (r t : Refs) → Holds r ip t → Holds r next (put_ref ip (get_ref next t))
Holds-next ip next r t h j = let e = h j in ground arith

module _ (d : Dirs) (parent : Bool) (r : Refs)
    (more : List ℕ → List ℕ → ℕ → Refs → Option (Found × Refs)) where
  namex_round-WalkEnd :
      (elem rest : List ℕ) (ip : ℕ) (t : Refs)
      → Holds r ip t
      → ((next : ℕ) (u : Refs) → Holds r next u → WalkEnd r (more rest elem next u))
      → WalkEnd r (namex_round more d parent elem rest ip t)
  namex_round-WalkEnd elem rest ip t h walk = elim (Bool-cases (d.is_dir ip)) [
    | inr e ↦ rw e (put_ref-get_ref ip r t h)
    | inl e ↦ rw e (elim (Bool-cases (parent && is_nil rest)) [
      | inl f ↦ rw f h
      | inr f ↦ rw f (found (dirlookup (d.entries ip) elem))
    ])
  ]
    where
      found :
          (o : Option ℕ)
          → WalkEnd r (elim o [
            | none ↦ some (none, put_ref ip t)
            | some next ↦ more rest elem next (put_ref ip (get_ref next t))
          ])
      found none = put_ref-get_ref ip r t h
      found (some next) = walk next (put_ref ip (get_ref next t)) (Holds-next ip next r t h)

  namex_step-WalkEnd :
      (path name : List ℕ) (ip : ℕ) (t : Refs)
      → Holds r ip t
      → (o : Option (List ℕ × List ℕ)) → SkipEnd path o
      → ((elem rest : List ℕ)
          → Taken path elem rest
          → (next : ℕ) (u : Refs) → Holds r next u
          → WalkEnd r (more rest elem next u))
      → WalkEnd r (elim o [
        | none ↦ if parent then some (none, put_ref ip t) else some (some (ip, name), t)
        | some (elem, rest) ↦ namex_round more d parent elem rest ip t
      ])
  namex_step-WalkEnd path name ip t h none e walk = elim (Bool-cases parent) [
    | inl q ↦ rw q (put_ref-get_ref ip r t h)
    | inr q ↦ rw q h
  ]
  namex_step-WalkEnd path name ip t h (some (elem, rest)) e walk =
      namex_round-WalkEnd elem rest ip t h (walk elem rest e)

namex_from-WalkEnd :
    (fuel : ℕ) (d : Dirs) (parent : Bool) (path name : List ℕ) (ip : ℕ) (r t : Refs)
    → length path < fuel
    → Holds r ip t
    → WalkEnd r (namex_from fuel d parent path name ip t)
unfolding namex_from
namex_from-WalkEnd zero d parent path name ip r t lt h = absurd (omega arith)
namex_from-WalkEnd (suc fuel) d parent path name ip r t lt h =
    namex_step-WalkEnd d parent r (namex_from fuel d parent) path name ip t h (skipelem path)
      (skipelem-SkipEnd path)
      (λ elem rest e next u k.
        let shorter = Taken-shorter path elem rest e in
        namex_from-WalkEnd fuel d parent rest elem next r u (omega arith) k)

-- `namex` comes to an end on every path. If it returns null, every inode has as many references
-- as before, and if it returns an inode, that one has one more and no other has changed.
pub namex-WalkEnd :
    (d : Dirs) (parent : Bool) (path : List ℕ) (cwd : ℕ) (r : Refs)
    → WalkEnd r (namex d parent path cwd r)
unfolding namex
namex-WalkEnd d parent path cwd r =
    namex_from-WalkEnd (length path + 1) d parent path [] (start_of path cwd) r
      (get_ref (start_of path cwd) r) (omega arith) (λ j. refl)
