-- ===== src/Lock/Inside.antt =====
-- The locks that each CPU is inside of: the invariant of all steps.
use mathlib.Core.Path.{subst}
use mit6s.Base.{
  ℕ, ◌+◌, ◌≡◌, ◌≢◌, ◌⊎◌, inl, inr, sym, ap, ◌∙◌, arith, true, false, none, some, ◌==◌, ==_ne,
  if◌then◌else◌, List, [], ◌∷◌, length, update, update_self, update_ne, ℕ_discrete,
}
use mit6s.Lock.{Spinlock, Phase, outside, spinning, taken, releasing, System}
use mit6s.Lock.Steps.{Initial}

-- CPU `c` is past the loop of `acquire` for the lock `l` and has not unlocked it since.
abbrev pub Inside : ℕ → ℕ → System → Type 0
Inside c l s = ((s.locks l).cpu ≡ some c) ⊎ ((s.phase c ≡ taken l) ⊎ (s.phase c ≡ releasing l))

abbrev pub In : ℕ → List ℕ → Type 0
In x [] = ⊥
In x (y ∷ ys) = (x ≡ y) ⊎ In x ys

abbrev pub Distinct : List ℕ → Type 0
Distinct [] = Unit {0}
Distinct (x ∷ xs) = ¬ (In x xs) × Distinct xs

-- A CPU in the loop of `acquire` has its interrupts off once more than it is inside of locks.
abbrev pub spins : Phase → ℕ
spins outside = 0
spins (spinning l) = 1
spins (taken l) = 0
spins (releasing l) = 0

pub record Inv (s : System) : Type 0 where
  pub held : ℕ → List ℕ
  pub distinct : (c : ℕ) → Distinct (held c)
  pub locked : (c l : ℕ) → In l (held c) → (s.locks l).locked ≡ true
  pub inside : (c l : ℕ) → Inside c l s → In l (held c)
  pub alone : (c d l : ℕ) → In l (held c) → In l (held d) → c ≡ d
  pub count : (c : ℕ) → (s.cpus c).noff ≡ length (held c) + spins (s.phase c)
  pub off : (c : ℕ) → (s.cpus c).noff ≢ 0 → (s.cpus c).intr ≡ false
  pub clear : (c l : ℕ) → s.phase c ≡ releasing l → (s.locks l).cpu ≡ none

pub outside-taken : (l : ℕ) → outside ≢ taken l
outside-taken l e = cc

pub Initial-Inv : (s : System) → Initial s → Inv s
Initial-Inv s i = record {
  held = λ c. [];
  distinct = λ c. tt;
  locked = λ c l m. absurd m;
  inside = λ c l w. elim w [
    | inl o ↦ absurd (cc (sym o ∙ ap (λ x. Spinlock.cpu x) (i.free l)))
    | inr (inl p) ↦ absurd (cc (sym p ∙ i.idle c))
    | inr (inr p) ↦ absurd (cc (sym p ∙ i.idle c))
  ];
  alone = λ c d l m. absurd m;
  count = λ c. let z : spins (s.phase c) ≡ 0 = ap spins (i.idle c) in omega (arith, i.none_off c);
  off = λ c ne. absurd (ne (i.none_off c));
  clear = λ c l p. absurd (cc (sym p ∙ i.idle c));
}

-- A place of an updated memory is the new one, or another.
pub update_cases {ℓ} :
    {A : Type ℓ} (f : ℕ → A) (i : ℕ) (v : A) (j : ℕ)
    → ((i ≡ j) × (update f i v j ≡ v)) ⊎ ((i ≢ j) × (update f i v j ≡ f j))
update_cases f i v j = elim (ℕ_discrete i j) [
  | yes q ↦ inl (q, ap (update f i v) (sym q) ∙ update_self f i v)
  | no ne ↦ inr (ne, update_ne f i v j ne)
]

-- A list without its first `x`.
abbrev pub without : ℕ → List ℕ → List ℕ
without x [] = []
without x (y ∷ ys) = if x == y then ys else y ∷ without x ys

pub In-without : (x i : ℕ) (ys : List ℕ) → Distinct ys → In i (without x ys) → In i ys × (x ≢ i)
In-without x i [] d m = absurd m
In-without x i (y ∷ ys) (n, d) m = elim (ℕ_discrete x y) [
  | yes q ↦
      let e : (x == y) ≡ true = ground arith in
      let m' : In i ys = rw e at m in (inr m', λ r. n (subst (λ k. In k ys) (sym r ∙ q) m'))
  | no ne ↦ elim (rw (==_ne x y ne) at m) [
    | inl q ↦ (inl q, λ r. ne (r ∙ q))
    | inr m' ↦ let (a, b) = In-without x i ys d m' in (inr a, b)
  ]
]

pub without-Distinct : (x : ℕ) (ys : List ℕ) → Distinct ys → Distinct (without x ys)
without-Distinct x [] d = tt
without-Distinct x (y ∷ ys) (n, d) = elim (ℕ_discrete x y) [
  | yes q ↦ let e : (x == y) ≡ true = ground arith in rw e d
  | no ne ↦ rw (==_ne x y ne) (λ m. n ((In-without x y ys d m).0), without-Distinct x ys d)
]

pub without-In : (x i : ℕ) (ys : List ℕ) → In i ys → x ≢ i → In i (without x ys)
without-In x i [] m ne = absurd m
without-In x i (y ∷ ys) m ne = elim (ℕ_discrete x y) [
  | yes q ↦
      let e : (x == y) ≡ true = ground arith in
      rw e (elim m [ inl r ↦ absurd (ne (q ∙ sym r)) | inr m' ↦ m' ])
  | no nxy ↦ rw (==_ne x y nxy) (elim m [ inl r ↦ inl r | inr m' ↦ inr (without-In x i ys m' ne) ])
]

pub length-without : (x : ℕ) (ys : List ℕ) → In x ys → length (without x ys) + 1 ≡ length ys
length-without x [] m = absurd m
length-without x (y ∷ ys) m = elim (ℕ_discrete x y) [
  | yes q ↦ let e : (x == y) ≡ true = ground arith in rw e (omega arith)
  | no ne ↦
      let m' : In x ys = elim m [ inl r ↦ absurd (ne r) | inr m' ↦ m' ] in
      rw (==_ne x y ne) (omega (arith, length-without x ys m'))
]
