-- ===== src/Fs/Names.antt =====
-- kernel/fs.c: `skipelem`, `dirlookup` and the walk of `namex`, over directories given by their entries.
-- A path is the list of the bytes before its null, a name the bytes of the buffer before its null
-- or its end.
use mit6s.Base.{
  ℕ, zero, suc, ◌+◌, ◌-◌, Bool, true, false, not, ◌&&◌, Option, none, some, ◌==◌, leb,
  if◌then◌else◌, List, [], ◌∷◌, length, take,
}

-- `DIRSIZ`
abbrev pub dirsiz : ℕ
dirsiz = 14

-- `while(*path == '/') path++;`
unfoldable pub skip_slashes : List ℕ → List ℕ
skip_slashes [] = []
skip_slashes (c ∷ path) = let rest = skip_slashes path in if c == 47 then rest else c ∷ path

-- `while(*path != '/' && *path != 0) path++;`: the bytes passed, and the path left.
unfoldable pub split_elem : List ℕ → List ℕ × List ℕ
split_elem [] = ([], [])
split_elem (c ∷ path) =
    let (s, rest) = split_elem path in if c == 47 then ([], c ∷ path) else (c ∷ s, rest)

-- `skipelem(path, name)`: the name and the path left.
unfoldable pub skipelem : List ℕ → Option (List ℕ × List ℕ)
skipelem path = elim (skip_slashes path) [
  | [] ↦ none
  | c ∷ p ↦
      let (s, rest) = split_elem (c ∷ p) in
      some (if leb dirsiz (length s) then take dirsiz s else s, skip_slashes rest)
]

-- `struct dirent`; the name is the bytes before its null or its end.
pub record Dirent : Type 0 where
  pub inum : ℕ
  pub name : List ℕ

-- `strncmp(s, t, n) == 0`, as `namecmp` asks.
unfoldable pub same_name : ℕ → List ℕ → List ℕ → Bool
same_name zero s t = true
same_name (suc n) [] [] = true
same_name (suc n) [] (d ∷ t) = false
same_name (suc n) (c ∷ s) [] = false
same_name (suc n) (c ∷ s) (d ∷ t) = let rest = same_name n s t in c == d && rest

-- The loop of `dirlookup(dp, name, 0)` over the entries of the directory.
unfoldable pub dirlookup : List Dirent → List ℕ → Option ℕ
dirlookup [] name = none
dirlookup (de ∷ entries) name =
    let rest = dirlookup entries name in
    if de.inum == 0 then rest else if same_name dirsiz name de.name then some de.inum else rest

-- What the inodes say: whether `type` is `T_DIR`, and the entries that `readi` reads.
pub record Dirs : Type 0 where
  pub is_dir : ℕ → Bool
  pub entries : ℕ → List Dirent

-- `ip->ref` of each inode, and `ip->ref++`, `ip->ref--`.
abbrev pub Refs : Type 0
Refs = ℕ → ℕ

abbrev pub get_ref : ℕ → Refs → Refs
get_ref i r j = if i == j then r j + 1 else r j

abbrev pub put_ref : ℕ → Refs → Refs
put_ref i r j = if i == j then r j - 1 else r j

abbrev pub is_nil : List ℕ → Bool
is_nil [] = true
is_nil (c ∷ path) = false

-- What `namex` returns: an inode and the name in the buffer, or null.
abbrev pub Found : Type 0
Found = Option (ℕ × List ℕ)

-- The body of the loop of `namex`, with `more` for the rounds that follow. `dirlookup` takes a
-- reference to what it finds.
abbrev pub namex_round :
    (List ℕ → List ℕ → ℕ → Refs → Option (Found × Refs))
    → Dirs
    → Bool
    → List ℕ
    → List ℕ
    → ℕ
    → Refs
    → Option (Found × Refs)
namex_round more d parent elem rest ip r =
    if not (d.is_dir ip)
    then some (none, put_ref ip r)
    else if parent && is_nil rest
    then some (some (ip, elem), r)
    else elim (dirlookup (d.entries ip) elem) [
      | none ↦ some (none, put_ref ip r)
      | some next ↦ more rest elem next (put_ref ip (get_ref next r))
    ]

-- The loop of `namex`; none is the end of the fuel.
unfoldable pub namex_from : ℕ → Dirs → Bool → List ℕ → List ℕ → ℕ → Refs → Option (Found × Refs)
namex_from zero d parent path name ip r = none
namex_from (suc fuel) d parent path name ip r = elim (skipelem path) [
  | none ↦ if parent then some (none, put_ref ip r) else some (some (ip, name), r)
  | some (elem, rest) ↦ namex_round (namex_from fuel d parent) d parent elem rest ip r
]

-- `ROOTINO`
abbrev pub root_ino : ℕ
root_ino = 1

-- The inode where `namex` starts.
abbrev pub start_of : List ℕ → ℕ → ℕ
start_of [] cwd = cwd
start_of (c ∷ path) cwd = if c == 47 then root_ino else cwd

-- `namex(path, nameiparent, name)`
unfoldable pub namex : Dirs → Bool → List ℕ → ℕ → Refs → Option (Found × Refs)
namex d parent path cwd r =
    let ip = start_of path cwd in namex_from (length path + 1) d parent path [] ip (get_ref ip r)
