-- ===== src/Fs/Directories.antt =====
-- What `dirlookup` finds in a directory.
use mit6s.Base.{
  ℕ, zero, suc, ◌≡◌, ◌≢◌, ◌⊎◌, inl, inr, refl, ap, ap₂, arith, true, false, Option, none, some,
  ◌==◌, ==_ne, List, [], ◌∷◌, ◌++◌, take, ℕ_discrete,
}
use mit6s.Fs.Names.{dirsiz, Dirent, same_name, dirlookup}

-- `same_name` compares the first `n` bytes.
pub same_name-take :
    (n : ℕ) (s t : List ℕ)
    → ((same_name n s t ≡ true) × (take n s ≡ take n t))
      ⊎ ((same_name n s t ≡ false) × (take n s ≢ take n t))
unfolding same_name
same_name-take zero s t = inl (refl, refl)
same_name-take (suc n) [] [] = inl (refl, refl)
same_name-take (suc n) [] (d ∷ t) = inr (refl, λ q. cc)
same_name-take (suc n) (c ∷ s) [] = inr (refl, λ q. cc)
same_name-take (suc n) (c ∷ s) (d ∷ t) = elim (ℕ_discrete c d) [
  | no ne ↦ inr (rw (==_ne c d ne) refl, λ q. ne (cc))
  | yes q ↦
      let h : (c == d) ≡ true = ground arith in
      elim (same_name-take n s t) [
        | inl (e, f) ↦ inl (rw (h, e) refl, ap₂ (λ x y. x ∷ y) q f)
        | inr (e, f) ↦ inr (rw (h, e) refl, λ p. f (cc))
      ]
]

-- The entry is empty, or has another name.
abbrev pub Other : List ℕ → Dirent → Type 0
Other name de = (de.inum ≡ 0) ⊎ (take dirsiz name ≢ take dirsiz (de.name))

abbrev pub AllOther : List ℕ → List Dirent → Type 0
AllOther name [] = Unit {0}
AllOther name (de ∷ entries) = Other name de × AllOther name entries

-- The first entry that is not empty and has the name, with the entries around it.
pub record First (name : List ℕ) (entries : List Dirent) (i : ℕ) : Type 0 where
  pub before : List Dirent
  pub entry : Dirent
  pub after : List Dirent
  pub parts : entries ≡ before ++ (entry ∷ after)
  pub others : AllOther name before
  pub inode : entry.inum ≡ i
  pub in_use : i ≢ 0
  pub named : take dirsiz name ≡ take dirsiz (entry.name)

abbrev pub LookupEnd : List ℕ → List Dirent → Option ℕ → Type 0
LookupEnd name entries none = AllOther name entries
LookupEnd name entries (some i) = First name entries i

LookupEnd-cons :
    (name : List ℕ) (de : Dirent) (entries : List Dirent) (r : Option ℕ)
    → Other name de
    → LookupEnd name entries r
    → LookupEnd name (de ∷ entries) r
LookupEnd-cons name de entries none o e = (o, e)
LookupEnd-cons name de entries (some i) o e = record {
  before = de ∷ e.before;
  entry = e.entry;
  after = e.after;
  parts = ap (λ l. de ∷ l) (e.parts);
  others = (o, e.others);
  inode = e.inode;
  in_use = e.in_use;
  named = e.named;
}

-- `dirlookup` returns the inode of the first entry that is not empty and whose name agrees with
-- the one asked for in the first 14 bytes, and nothing if there is no such entry.
pub dirlookup-LookupEnd :
    (entries : List Dirent) (name : List ℕ) → LookupEnd name entries (dirlookup entries name)
unfolding dirlookup
dirlookup-LookupEnd [] name = tt
dirlookup-LookupEnd (de ∷ entries) name =
    let more = dirlookup-LookupEnd entries name in
    elim (ℕ_discrete (de.inum) 0) [
      | yes z ↦
          let h : (de.inum == 0) ≡ true = ground arith in
          rw h (LookupEnd-cons name de entries (dirlookup entries name) (inl z) more)
      | no nz ↦ elim (same_name-take dirsiz name (de.name)) [
        | inl (e, f) ↦
            rw (==_ne (de.inum) 0 nz, e)
              record {
                before = [];
                entry = de;
                after = entries;
                parts = refl;
                others = tt;
                inode = refl;
                in_use = nz;
                named = f;
              }
        | inr (e, f) ↦
            rw (==_ne (de.inum) 0 nz, e)
              (LookupEnd-cons name de entries (dirlookup entries name) (inr f) more)
      ]
    ]
