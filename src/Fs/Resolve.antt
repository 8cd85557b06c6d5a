-- ===== src/Fs/Resolve.antt =====
-- Which inode `namex` returns, as a relation on the path and the directories.
use mit6s.Base.{
  ℕ, ◌<◌, ◌≡◌, inl, inr, refl, sym, ap, ap₂, ◌∙◌, arith, true, false, Option, none, some, ◌==◌,
  ==_ne, if◌then◌else◌, List, [], ◌∷◌, ◌++◌, append-nil, length, leb, take, Bool-cases,
}
use mit6s.Fs.Names.{dirsiz, skip_slashes, split_elem, skipelem, Dirent, dirlookup, Dirs}
use mit6s.Fs.Elements.{AllSlashes, NoSlash, Starts, Ended, Taken, name_in_buffer}
use mit6s.Fs.Directories.{Other, AllOther, First, same_name-take}

-- The path leads from inode `i` to inode `j`: slashes alone stay, and an element goes from a
-- directory to the first entry of that name.
pub data Leads (d : Dirs) : List ℕ → ℕ → ℕ → Type 0 where
  stay : (path : List ℕ) (i : ℕ) → AllSlashes path → Leads d path i i
  down :
      (path elem rest : List ℕ) (i next j : ℕ)
      → Taken path elem rest
      → d.is_dir i ≡ true
      → First elem (d.entries i) next
      → Leads d rest next j
      → Leads d path i j

skip_slashes-append : (s x : List ℕ) → AllSlashes s → Starts x → skip_slashes (s ++ x) ≡ x
unfolding skip_slashes
skip_slashes-append [] [] a st = refl
skip_slashes-append [] (c ∷ x) a st = rw (==_ne c 47 st) refl
skip_slashes-append (c ∷ s) x (q, a) st =
    let h : (c == 47) ≡ true = ground arith in rw h (skip_slashes-append s x a st)

split_elem-append : (s x : List ℕ) → NoSlash s → Ended x → split_elem (s ++ x) ≡ (s, x)
unfolding split_elem
split_elem-append [] [] n e = refl
split_elem-append [] (c ∷ x) n e = let h : (c == 47) ≡ true = ground arith in rw h refl
split_elem-append (c ∷ s) x (nc, n) e = rw (==_ne c 47 nc, split_elem-append s x n e) refl

NoSlash-Starts : (s x : List ℕ) → NoSlash s → 0 < length s → Starts (s ++ x)
NoSlash-Starts [] x n lt = absurd (omega arith)
NoSlash-Starts (c ∷ s) x (nc, n) lt = nc

pub AllSlashes-skipelem : (path : List ℕ) → AllSlashes path → skipelem path ≡ none
unfolding skipelem
AllSlashes-skipelem path a =
    let e : skip_slashes path ≡ [] =
      ap skip_slashes (sym (append-nil path)) ∙ skip_slashes-append path [] a tt in
    rw (e, skipelem) refl

-- `skipelem` finds the only element that can be taken off.
pub Taken-skipelem :
    (path elem rest : List ℕ) → Taken path elem rest → skipelem path ≡ some (elem, rest)
unfolding skipelem
Taken-skipelem path elem rest t =
    let tail = t.after ++ rest in
    let e1 : skip_slashes path ≡ t.whole ++ tail =
      ap skip_slashes (t.parts)
      ∙ skip_slashes-append (t.before) (t.whole ++ tail) (t.slashes.0)
          (NoSlash-Starts (t.whole) tail (t.no_slash) (t.some_byte)) in
    let e2 = split_elem-append (t.whole) tail (t.no_slash) (t.ends) in
    let e3 = skip_slashes-append (t.after) rest (t.slashes.1) (t.starts) in
    rw (e1, skipelem)
      (shown (t.whole) tail e2 e3 (t.some_byte) (t.name ∙ sym (name_in_buffer (t.whole))))
  where
    shown :
        (s x : List ℕ)
        → ◌≡◌ {A = List ℕ × List ℕ} (split_elem (s ++ x)) (s, x)
        → skip_slashes x ≡ rest
        → 0 < length s
        → elem ≡ (if leb dirsiz (length s) then take dirsiz s else s)
        → ◌≡◌ {A = Option (List ℕ × List ℕ)}
            (elim (s ++ x) [
              | [] ↦ none
              | c ∷ p ↦
                  let (w, r) = split_elem (c ∷ p) in
                  some (if leb dirsiz (length w) then take dirsiz w else w, skip_slashes r)
            ])
            (some (elem, rest))
    shown [] x e2 e3 lt n = absurd (omega arith)
    shown (c ∷ s) x e2 e3 lt n = rw e2 (ap₂ (λ a b. some (a, b)) (sym n) e3)

Other-skip :
    (name : List ℕ) (de : Dirent) (entries : List Dirent)
    → Other name de
    → dirlookup (de ∷ entries) name ≡ dirlookup entries name
unfolding dirlookup
Other-skip name de entries (inl z) = let h : (de.inum == 0) ≡ true = ground arith in rw h refl
Other-skip name de entries (inr ne) = elim (same_name-take dirsiz name (de.name)) [
  | inl (e, f) ↦ absurd (ne f)
  | inr (e, f) ↦ elim (Bool-cases (de.inum == 0)) [ inl h ↦ rw h refl | inr h ↦ rw (h, e) refl ]
]

AllOther-skip :
    (name : List ℕ) (before entries : List Dirent)
    → AllOther name before
    → dirlookup (before ++ entries) name ≡ dirlookup entries name
AllOther-skip name [] entries a = refl
AllOther-skip name (de ∷ before) entries (o, a) =
    Other-skip name de (before ++ entries) o ∙ AllOther-skip name before entries a

pub First-dirlookup :
    (name : List ℕ) (entries : List Dirent) (i : ℕ)
    → First name entries i
    → dirlookup entries name ≡ some i
unfolding dirlookup
First-dirlookup name entries i f =
    ap (λ l. dirlookup l name) (f.parts)
    ∙ AllOther-skip name (f.before) (f.entry ∷ f.after) (f.others)
    ∙ elim (same_name-take dirsiz name (f.entry.name)) [
      | inr (e, ne) ↦ absurd (ne (f.named))
      | inl (e, q) ↦
          let h : (f.entry.inum == 0) ≡ false =
            ==_ne (f.entry.inum) 0 (λ z. f.in_use (sym (f.inode) ∙ z)) in
          rw (h, e) (ap some (f.inode))
    ]
