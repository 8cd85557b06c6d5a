-- ===== src/File/Holders.antt =====
-- Holders of open files, who allocate, duplicate and close them in any order.
use mathlib.Core.Path.{subst}
use mit6s.Base.{
  ℕ, suc, ◌+◌, ◌-◌, ◌≤◌, ◌<◌, ◌≡◌, ◌≢◌, ◌⊎◌, inl, inr, refl, ap, sym, ◌∙◌, arith, List, ◌∷◌, ◌++◌,
  Option, none, some, some_inj, ==_refl, ==_ne, update_self, update_ne, ℕ_discrete,
}
use mit6s.File.{
  nfile, File, Ftable, set_file, filealloc, filedup, fileclose, Closing, nothing, closing, fd_none,
}
use mit6s.File.Count.{
  count, count-append, filedup-some, fileclose-more, fileclose-last, AllocEnd, filealloc-AllocEnd,
}

-- The table, and for every reference that a descriptor or a process holds the file it refers to.
pub record World : Type 0 where
  pub table : Ftable
  pub holders : List ℕ

-- The references counted are those that are held.
abbrev pub Counted : World → Type 0
Counted w = (f : ℕ) → (w.table.file f).ref ≡ count f w.holders

-- What holders may do: allocate a file, set the fields of one that they hold, but not its count,
-- take one more reference to a file that they hold, or give one up.
pub data Step : World → World → Type 0 where
  allocates :
      (s t : Ftable) (hs : List ℕ) (f : ℕ)
      → filealloc s ≡ (some f, t)
      → Step (record { table = s; holders = hs }) (record { table = t; holders = f ∷ hs })
  finds_none :
      (s t : Ftable) (hs : List ℕ)
      → filealloc s ≡ (none, t)
      → Step (record { table = s; holders = hs }) (record { table = t; holders = hs })
  sets :
      (s : Ftable) (gs hs : List ℕ) (f : ℕ) (x : File)
      → x.ref ≡ (s.file f).ref
      → Step
          (record { table = s; holders = gs ++ f ∷ hs })
          (record { table = set_file f x s; holders = gs ++ f ∷ hs })
  dups :
      (s t : Ftable) (gs hs : List ℕ) (f : ℕ)
      → filedup f s ≡ some t
      → Step
          (record { table = s; holders = gs ++ f ∷ hs })
          (record { table = t; holders = f ∷ (gs ++ f ∷ hs) })
  closes :
      (s t : Ftable) (gs hs : List ℕ) (f : ℕ) (c : Closing)
      → fileclose f s ≡ some (c, t)
      → Step
          (record { table = s; holders = gs ++ f ∷ hs })
          (record { table = t; holders = gs ++ hs })

pub data Reach (v : World) : World → Type 0 where
  here : Reach v v
  next : {u w : World} → Reach v u → Step u w → Reach v w

-- A store to one file.
set_file-Counted :
    (s : Ftable) (f : ℕ) (x : File) (hs ks : List ℕ)
    → Counted (record { table = s; holders = hs })
    → x.ref ≡ count f ks
    → ((g : ℕ) → f ≢ g → count g ks ≡ count g hs)
    → Counted (record { table = set_file f x s; holders = ks })
set_file-Counted s f x hs ks c e o g = elim (ℕ_discrete f g) [
  | yes q ↦ rw (sym q, ==_refl f) e
  | no ne ↦ rw (==_ne f g ne) (c g ∙ sym (o g ne))
]

count-held : (f : ℕ) (gs hs : List ℕ) → count f (gs ++ f ∷ hs) ≡ suc (count f gs + count f hs)
count-held f gs hs = count-append f gs (f ∷ hs) ∙ rw (==_refl f) (omega arith)

count-other : (f g : ℕ) (gs hs : List ℕ) → f ≢ g → count g (gs ++ f ∷ hs) ≡ count g gs + count g hs
count-other f g gs hs ne = count-append g gs (f ∷ hs) ∙ rw (==_ne f g ne) (omega arith)

-- What the close of a held file does.
pub record Closes (f : ℕ) (gs hs : List ℕ) (s : Ftable) (c : Closing) (t : Ftable) : Type 0 where
  -- It is the last one exactly if nobody else holds the file; then the file is freed.
  pub last :
      count f (gs ++ hs) ≡ 0
      → (c ≡ closing (s.file f)) × ((t.file f).ref ≡ 0) × ((t.file f).type ≡ fd_none)
  pub more :
      1 ≤ count f (gs ++ hs)
      → (c ≡ nothing) × (t.file f ≡ record (s.file f) { ref = count f (gs ++ hs) })
  pub others : (g : ℕ) → f ≢ g → t.file g ≡ s.file g
  pub counted : Counted (record { table = t; holders = gs ++ hs })

fileclose-Closes :
    (f : ℕ) (gs hs : List ℕ) (s : Ftable)
    → Counted (record { table = s; holders = gs ++ f ∷ hs })
    → (c : Closing) × (t : Ftable) × (fileclose f s ≡ some (c, t)) × Closes f gs hs s c t
fileclose-Closes f gs hs s cd =
    let eh : (s.file f).ref ≡ suc (count f gs + count f hs) = cd f ∙ count-held f gs hs in
    let es : count f (gs ++ hs) ≡ count f gs + count f hs = count-append f gs hs in
    let er : (s.file f).ref ≡ suc (count f (gs ++ hs)) = omega arith in
    let rest : (g : ℕ) → f ≢ g → count g (gs ++ hs) ≡ count g (gs ++ f ∷ hs) =
      λ g ne. count-append g gs hs ∙ sym (count-other f g gs hs ne) in
    elim (ℕ_discrete (count f (gs ++ hs)) 0) [
      | yes z ↦
          let x : File = record (s.file f) { ref = 0; type = fd_none } in
          (
            closing (s.file f),
            set_file f x s,
            fileclose-last f s (omega arith),
            record {
              last = λ h. (
                refl,
                ap (λ y. y.ref) (update_self s.file f x),
                ap (λ y. y.type) (update_self s.file f x),
              );
              more = λ h. absurd (omega arith);
              others = λ g ne. update_ne s.file f x g ne;
              counted = set_file-Counted s f x (gs ++ f ∷ hs) (gs ++ hs) cd (sym z) rest;
            },
          )
      | no nz ↦
          let x : File = record (s.file f) { ref = (s.file f).ref - 1 } in
          let ex : (s.file f).ref - 1 ≡ count f (gs ++ hs) = omega arith in
          let with_ref : ℕ → File = λ r. record (s.file f) { ref = r } in
          (
            nothing,
            set_file f x s,
            fileclose-more f s (omega arith),
            record {
              last = λ h. absurd (nz h);
              more = λ h. (refl, update_self s.file f x ∙ ap with_ref ex);
              others = λ g ne. update_ne s.file f x g ne;
              counted = set_file-Counted s f x (gs ++ f ∷ hs) (gs ++ hs) cd ex rest;
            },
          )
    ]

Step-Counted : {v w : World} → Step v w → Counted v → Counted w
Step-Counted (allocates s t hs f e) c =
    let (lo, hi, z, et) = subst (AllocEnd 0 nfile s) e (filealloc-AllocEnd s) in
    let one : 1 ≡ count f (f ∷ hs) = rw (==_refl f) (omega (arith, c f)) in
    subst (λ u. Counted (record { table = u; holders = f ∷ hs })) (sym et)
      (set_file-Counted s f (record (s.file f) { ref = 1 }) hs (f ∷ hs) c one
        (λ g ne. rw (==_ne f g ne) (omega arith)))
Step-Counted (finds_none s t hs e) c =
    let (h, et) = subst (AllocEnd 0 nfile s) e (filealloc-AllocEnd s) in
    subst (λ u. Counted (record { table = u; holders = hs })) (sym et) c
Step-Counted (sets s gs hs f x e) c =
    set_file-Counted s f x (gs ++ f ∷ hs) (gs ++ f ∷ hs) c (e ∙ c f) (λ g ne. refl)
Step-Counted (dups s t gs hs f e) c =
    let eh = c f ∙ count-held f gs hs in
    let et = some_inj (sym (filedup-some f s (omega arith)) ∙ e) in
    let more : (s.file f).ref + 1 ≡ count f (f ∷ (gs ++ f ∷ hs)) =
      rw (==_refl f) (omega (arith, c f)) in
    subst (λ u. Counted (record { table = u; holders = f ∷ (gs ++ f ∷ hs) })) et
      (set_file-Counted s f (record (s.file f) { ref = (s.file f).ref + 1 }) (gs ++ f ∷ hs)
        (f ∷ (gs ++ f ∷ hs)) c more (λ g ne. rw (==_ne f g ne) (omega arith)))
Step-Counted (closes s t gs hs f k e) c =
    let (k', u, eu, d) = fileclose-Closes f gs hs s c in
    let et : u ≡ t = ap (λ r. r.1) (some_inj (sym eu ∙ e)) in
    subst (λ u. Counted (record { table = u; holders = gs ++ hs })) et d.counted

unheld :
    (s : Ftable) (hs : List ℕ) (out : Option ℕ × Ftable)
    → Counted (record { table = s; holders = hs })
    → AllocEnd 0 nfile s out
    → ((out.0 ≡ none) × ((f : ℕ) → f < nfile → 1 ≤ count f hs))
      ⊎ ((f : ℕ) × (out.0 ≡ some f) × (f < nfile) × (count f hs ≡ 0) × ((out.1.file f).ref ≡ 1))
unheld s hs (none, t) c (h, e) =
    inl (refl, λ f lt. let ne = h f (omega arith) lt in omega (arith, c f))
unheld s hs (some f, t) c (lo, hi, z, e) = inr (
  f,
  refl,
  hi,
  sym (c f) ∙ z,
  ap (λ u. (u.file f).ref) e
      ∙ ap (λ y. y.ref) (update_self s.file f (record (s.file f) { ref = 1 })),
)

-- Whatever holders do, the count of every file is the number of references that are held to it.
pub Reach-Counted : {v w : World} → Reach v w → Counted v → Counted w
Reach-Counted here c = c
Reach-Counted (next r s) c = Step-Counted s (Reach-Counted r c)

-- In every table that holders can reach, the close of a file that is held does not panic; it frees
-- the file and closes its pipe or puts its inode exactly if nobody else holds it, and else only
-- counts one reference less; and other files are untouched.
pub close-Closes :
    {v : World} (s : Ftable) (gs hs : List ℕ) (f : ℕ)
    → Reach v (record { table = s; holders = gs ++ f ∷ hs })
    → Counted v
    → (c : Closing) × (t : Ftable) × (fileclose f s ≡ some (c, t)) × Closes f gs hs s c t
close-Closes s gs hs f r c = fileclose-Closes f gs hs s (Reach-Counted r c)

-- `filealloc` gives out a file that nobody holds, with one reference, or none only if all NFILE
-- files are held.
alloc-unheld :
    {v w : World}
    → Reach v w
    → Counted v
    → (((filealloc w.table).0 ≡ none) × ((f : ℕ) → f < nfile → 1 ≤ count f w.holders))
      ⊎ ((f : ℕ) × ((filealloc w.table).0 ≡ some f)
          × (f < nfile)
          × (count f w.holders ≡ 0)
          × (((filealloc w.table).1.file f).ref ≡ 1))
alloc-unheld {w = w} r c =
    unheld (w.table) (w.holders) (filealloc (w.table)) (Reach-Counted r c)
      (filealloc-AllocEnd (w.table))
