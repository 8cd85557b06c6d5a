-- ===== src/Fs/Elements.antt =====
-- What `skipelem` takes off a path.
use mathlib.Core.Path.{subst}
use mit6s.Base.{
  zero, suc, inl, inr, ◌≤◌, Bool-cases, ℕ, ◌<◌, ◌≡◌, ◌≢◌, refl, sym, ap, ◌∙◌, arith, true, Option,
  none, some, ◌==◌, ==_ne, leb, if◌then◌else◌, List, [], ◌∷◌, ◌++◌, append-nil, length,
  length-append, take, ℕ_discrete,
}
use mit6s.Fs.Names.{dirsiz, skip_slashes, split_elem, skipelem}

abbrev pub AllSlashes : List ℕ → Type 0
AllSlashes [] = Unit {0}
AllSlashes (c ∷ path) = (c ≡ 47) × AllSlashes path

abbrev pub NoSlash : List ℕ → Type 0
NoSlash [] = Unit {0}
NoSlash (c ∷ path) = (c ≢ 47) × NoSlash path

-- The path is empty or begins with another byte than a slash.
abbrev pub Starts : List ℕ → Type 0
Starts [] = Unit {0}
Starts (c ∷ path) = c ≢ 47

-- The path is empty or begins with a slash.
abbrev pub Ended : List ℕ → Type 0
Ended [] = Unit {0}
Ended (c ∷ path) = c ≡ 47

skipped :
    (path : List ℕ)
    → (slashes : List ℕ) × (path ≡ slashes ++ skip_slashes path)
      × AllSlashes slashes
      × Starts (skip_slashes path)
unfolding skip_slashes
skipped [] = ([], refl, tt, tt)
skipped (c ∷ path) = elim (ℕ_discrete c 47) [
  | yes q ↦
      let (s, e, a, st) = skipped path in
      let h : (c == 47) ≡ true = ground arith in rw h (c ∷ s, ap (λ p. c ∷ p) e, (q, a), st)
  | no ne ↦ rw (==_ne c 47 ne) ([], refl, tt, ne)
]

split :
    (path : List ℕ) → let (s, rest) = split_elem path in (path ≡ s ++ rest) × NoSlash s × Ended rest
unfolding split_elem
split [] = (refl, tt, tt)
split (c ∷ path) = elim (ℕ_discrete c 47) [
  | yes q ↦ let h : (c == 47) ≡ true = ground arith in rw h (refl, tt, q)
  | no ne ↦ let (e, n, d) = split path in rw (==_ne c 47 ne) (ap (λ p. c ∷ p) e, (ne, n), d)
]

-- A path that begins with no slash has an element.
split-some : (c : ℕ) (path : List ℕ) → c ≢ 47 → 0 < length ((split_elem (c ∷ path)).0)
unfolding split_elem
split-some c path ne = rw (==_ne c 47 ne) (omega arith)

take-whole : (n : ℕ) (s : List ℕ) → length s ≤ n → take n s ≡ s
take-whole zero [] le = refl
take-whole zero (c ∷ s) le = absurd (omega arith)
take-whole (suc n) [] le = refl
take-whole (suc n) (c ∷ s) le = ap (λ p. c ∷ p) (take-whole n s (omega arith))

-- Both branches of the copy leave the first 14 bytes.
pub name_in_buffer :
    (s : List ℕ) → (if leb dirsiz (length s) then take dirsiz s else s) ≡ take dirsiz s
name_in_buffer s = elim (Bool-cases (leb dirsiz (length s))) [
  | inl e ↦ rw e refl
  | inr e ↦ rw e (sym (take-whole dirsiz s (ground arith)))
]

-- The element `whole`, between slashes, is taken off the path; the name is its first 14 bytes, and the
-- path left begins with no slash.
pub record Taken (path elem rest : List ℕ) : Type 0 where
  pub before : List ℕ
  pub whole : List ℕ
  pub after : List ℕ
  pub parts : path ≡ before ++ (whole ++ (after ++ rest))
  pub slashes : AllSlashes before × AllSlashes after
  pub no_slash : NoSlash whole
  pub some_byte : 0 < length whole
  pub ends : Ended (after ++ rest)
  pub name : elem ≡ take dirsiz whole
  pub starts : Starts rest

abbrev pub SkipEnd : List ℕ → Option (List ℕ × List ℕ) → Type 0
SkipEnd path none = AllSlashes path
SkipEnd path (some (elem, rest)) = Taken path elem rest

skipelem_with :
    (path p before : List ℕ)
    → path ≡ before ++ p
    → AllSlashes before
    → Starts p
    → SkipEnd path (elim p [
      | [] ↦ none
      | c ∷ q ↦
          let (s, rest) = split_elem (c ∷ q) in
          some (if leb dirsiz (length s) then take dirsiz s else s, skip_slashes rest)
    ])
skipelem_with path [] before e a st = subst AllSlashes (sym (e ∙ append-nil before)) a
skipelem_with path (c ∷ q) before e a st =
    let (s, rest) = split_elem (c ∷ q) in
    let (e1, n, d) = split (c ∷ q) in
    let (after, e2, a2, st2) = skipped rest in
    record {
      before = before;
      whole = s;
      after = after;
      parts = e ∙ ap (λ p. before ++ p) (e1 ∙ ap (λ r. s ++ r) e2);
      slashes = (a, a2);
      no_slash = n;
      some_byte = split-some c q st;
      ends = subst Ended e2 d;
      name = name_in_buffer s;
      starts = st2;
    }

-- `skipelem` returns null exactly on a path of slashes only, and otherwise takes off the first
-- element with the slashes around it.
pub skipelem-SkipEnd : (path : List ℕ) → SkipEnd path (skipelem path)
unfolding skipelem
skipelem-SkipEnd path =
    let (before, e, a, st) = skipped path in skipelem_with path (skip_slashes path) before e a st

-- What is left is shorter.
pub Taken-shorter : (path elem rest : List ℕ) → Taken path elem rest → length rest < length path
Taken-shorter path elem rest t = omega (
  arith,
  ap length (t.parts),
  length-append (t.before) (t.whole ++ (t.after ++ rest)),
  length-append (t.whole) (t.after ++ rest),
  length-append (t.after) rest,
  t.some_byte,
)
