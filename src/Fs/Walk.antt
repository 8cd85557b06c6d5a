-- ===== src/Fs/Walk.antt =====
-- `namex` returns the inode that the path leads to.
use mathlib.Core.Path.{subst}
use mit6s.Base.{
  ℕ, zero, suc, ◌+◌, ◌<◌, ◌≡◌, inl, inr, refl, ◌↔◌, arith, true, false, Option, none, some, List,
  [], length, Bool-cases,
}
use mit6s.Fs.Names.{
  skipelem, dirlookup, Dirs, Refs, get_ref, put_ref, Found, namex_round, namex_from, start_of,
  namex,
}
use mit6s.Fs.Elements.{SkipEnd, Taken, skipelem-SkipEnd, Taken-shorter}
use mit6s.Fs.Directories.{LookupEnd, dirlookup-LookupEnd}
use mit6s.Fs.Resolve.{Leads, stay, down, AllSlashes-skipelem, Taken-skipelem, First-dirlookup}

-- What the walk returns, if it returns an inode, is where the path leads.
abbrev LeadsTo : Dirs → List ℕ → ℕ → Option (Found × Refs) → Type 0
LeadsTo d path i none = Unit {0}
LeadsTo d path i (some (none, t)) = Unit {0}
LeadsTo d path i (some (some (j, name), t)) = Leads d path i j

LeadsTo-down :
    (d : Dirs) (path elem rest : List ℕ) (i next : ℕ) (r : Option (Found × Refs))
    → ((j : ℕ) → Leads d rest next j → Leads d path i j)
    → LeadsTo d rest next r
    → LeadsTo d path i r
LeadsTo-down d path elem rest i next none f e = tt
LeadsTo-down d path elem rest i next (some (none, t)) f e = tt
LeadsTo-down d path elem rest i next (some (some (j, name), t)) f e = f j e

module _ (d : Dirs) (more : List ℕ → List ℕ → ℕ → Refs → Option (Found × Refs))
    (sound : (path name : List ℕ) (i : ℕ) (t : Refs) → LeadsTo d path i (more path name i t))
    (path : List ℕ) (ip : ℕ) (t : Refs) where
  round-LeadsTo :
      (elem rest : List ℕ)
      → Taken path elem rest
      → LeadsTo d path ip (namex_round more d false elem rest ip t)
  round-LeadsTo elem rest k = elim (Bool-cases (d.is_dir ip)) [
    | inr e ↦ rw e tt
    | inl e ↦
        rw e (found (dirlookup (d.entries ip) elem) (dirlookup-LookupEnd (d.entries ip) elem) e)
  ]
    where
      found :
          (o : Option ℕ)
          → LookupEnd elem (d.entries ip) o
          → d.is_dir ip ≡ true
          → LeadsTo d path ip (elim o [
            | none ↦ some (none, put_ref ip t)
            | some next ↦ more rest elem next (put_ref ip (get_ref next t))
          ])
      found none l e = tt
      found (some next) l e =
          let u = put_ref ip (get_ref next t) in
          LeadsTo-down d path elem rest ip next (more rest elem next u)
            (λ j q. down path elem rest ip next j k e l q) (sound rest elem next u)

  step-LeadsTo :
      (name : List ℕ) (o : Option (List ℕ × List ℕ))
      → SkipEnd path o
      → LeadsTo d path ip (elim o [
        | none ↦ some (some (ip, name), t)
        | some (elem, rest) ↦ namex_round more d false elem rest ip t
      ])
  step-LeadsTo name none e = stay path ip e
  step-LeadsTo name (some (elem, rest)) e = round-LeadsTo elem rest e

namex_from-LeadsTo :
    (fuel : ℕ) (d : Dirs) (path name : List ℕ) (i : ℕ) (t : Refs)
    → LeadsTo d path i (namex_from fuel d false path name i t)
unfolding namex_from
namex_from-LeadsTo zero d path name i t = tt
namex_from-LeadsTo (suc fuel) d path name i t =
    step-LeadsTo d (namex_from fuel d false)
      (λ path name i t. namex_from-LeadsTo fuel d path name i t) path i t name (skipelem path)
      (skipelem-SkipEnd path)

-- The walk returns inode `j`.
abbrev pub Returns : ℕ → Option (Found × Refs) → Type 0
Returns j r = (name : List ℕ) × (t : Refs) × (r ≡ some (some (j, name), t))

Leads-namex_from :
    (fuel : ℕ) (d : Dirs) (path name : List ℕ) (i j : ℕ) (t : Refs)
    → length path < fuel
    → Leads d path i j
    → Returns j (namex_from fuel d false path name i t)
unfolding namex_from
Leads-namex_from zero d path name i j t lt l = absurd (omega arith)
Leads-namex_from (suc fuel) d path name i j t lt (stay _ _ a) =
    rw (AllSlashes-skipelem path a, namex_from) (name, t, refl)
Leads-namex_from (suc fuel) d path name i j t lt (down _ elem rest _ next _ k e f l) =
    let shorter = Taken-shorter path elem rest k in
    rw (Taken-skipelem path elem rest k, e, First-dirlookup elem (d.entries i) next f, namex_from)
      (Leads-namex_from fuel d rest elem next j (put_ref i (get_ref next t)) (omega arith) l)

-- `namex` for the last element returns exactly the inode that the path leads to, from the root if
-- the path begins with a slash and from the current directory otherwise.
pub namex-Leads :
    (d : Dirs) (path : List ℕ) (cwd : ℕ) (r : Refs) (j : ℕ)
    → Returns j (namex d false path cwd r) ↔ Leads d path (start_of path cwd) j
unfolding namex
namex-Leads d path cwd r j =
    let ip = start_of path cwd in
    (
      λ (name, t, e).
          subst (LeadsTo d path ip) e
            (namex_from-LeadsTo (length path + 1) d path [] ip (get_ref ip r)),
      λ l. Leads-namex_from (length path + 1) d path [] ip j (get_ref ip r) (omega arith) l,
    )
