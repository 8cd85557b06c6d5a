-- ===== src/Vm/Shape.antt =====
-- The shape of a page table: a tree of three levels whose pages are held, each the table of one
-- level and of the addresses with one prefix; and the entry that a virtual address has in it.
use mit6s.Base.{
  ℕ, zero, suc, ◌+◌, ◌*◌, ◌/◌, ◌≤◌, ◌<◌, ◌≡◌, ◌≢◌, inl, inr, refl, sym, ap, ◌∙◌, arith, Bool, true,
  false, Option, none, some, some_inj, leb, if◌then◌else◌, Bool-cases,
}
use mit6s.Kalloc.{Kmem}
use mit6s.Kalloc.Pages.{Page}
use mit6s.Kalloc.Owners.{Sound}
use mit6s.Vm.Walk.{px, pte2pa, is_valid, slot, max_va, walk_from, walk}
use mit6s.Vm.Index.{prefix, px-lt, px_page, prefix-suc, slot_inj}

-- The table of the last level for `va`, below the table `pagetable` of level `level`.
unfoldable pub table : ℕ → (ℕ → ℕ) → ℕ → ℕ → Option ℕ
table zero m pagetable va = some pagetable
table (suc l) m pagetable va =
    let pte = slot pagetable (px (suc l) va) in
    if is_valid (m pte) then table l m (pte2pa (m pte)) va else none

-- The word at the entry for `va`, 0 where there is no table for it.
abbrev pub word_in : (ℕ → ℕ) → ℕ → Option ℕ → ℕ
word_in m va none = 0
word_in m va (some x) = m (slot x (px 0 va))

abbrev pub entry : ℕ → (ℕ → ℕ) → ℕ → ℕ → ℕ
entry level m pagetable va = word_in m va (table level m pagetable va)

-- The address of the entry for `va`, 0 where there is no table for it.
abbrev pub slot_in : ℕ → Option ℕ → ℕ
slot_in va none = 0
slot_in va (some x) = slot x (px 0 va)

-- The level and the prefix of each page that is a table.
abbrev pub Home : Type 0
Home = ℕ → Option (ℕ × ℕ)

pub record Shaped (end : ℕ) (home : Home) (own : ℕ → Bool) (s : Kmem) : Type 0 where
  pub child :
      (x l p i : ℕ)
      → home x ≡ some (suc l, p)
      → i < 512
      → is_valid (s.mem (slot x i)) ≡ true
      → home (pte2pa (s.mem (slot x i))) ≡ some (l, p * 512 + i)
  pub held : (x l p : ℕ) → home x ≡ some (l, p) → own x ≡ true
  pub sound : Sound end (record { kmem = s; own = own })

module _ (end : ℕ) {home : Home} {own : ℕ → Bool} {s : Kmem} (d : Shaped end home own s) where
  pub home-Page : {x l p : ℕ} → home x ≡ some (l, p) → Page end x
  home-Page {x} {l} {p} h = d.sound.pages x (d.held x l p h)

  -- The next table on the way to `va`.
  pub home-child :
      (l pt va : ℕ)
      → suc l ≤ 2
      → home pt ≡ some (suc l, prefix (suc l) va)
      → is_valid (s.mem (slot pt (px (suc l) va))) ≡ true
      → home (pte2pa (s.mem (slot pt (px (suc l) va)))) ≡ some (l, prefix l va)
  home-child l pt va h e v =
      d.child pt l (prefix (suc l) va) (px (suc l) va) e (px-lt (suc l) va) v
      ∙ ap (λ p. some (l, p)) (sym (prefix-suc l va (omega arith)))

  pub table-home :
      (l pt va x : ℕ)
      → l ≤ 2
      → home pt ≡ some (l, prefix l va)
      → table l s.mem pt va ≡ some x
      → home x ≡ some (0, prefix 0 va)
  unfolding table
  table-home zero pt va x h e q = ap home (sym (some_inj q)) ∙ e
  table-home (suc l) pt va x h e q =
      let pte = slot pt (px (suc l) va) in
      elim (Bool-cases (is_valid (s.mem pte))) [
        | inl v ↦
            table-home l (pte2pa (s.mem pte)) va x (omega arith) (home-child l pt va h e v)
              (rw v at q)
        | inr v ↦ absurd (cc (v, q))
      ]

  -- The words that lead to the last tables decide which they are.
  pub table_same :
      (m : ℕ → ℕ)
      → ((x l p i : ℕ) → home x ≡ some (suc l, p) → i < 512 → m (slot x i) ≡ s.mem (slot x i))
      → (l pt va : ℕ) → l ≤ 2
      → home pt ≡ some (l, prefix l va)
      → table l m pt va ≡ table l s.mem pt va
  unfolding table
  table_same m same zero pt va h e = refl
  table_same m same (suc l) pt va h e =
      let pte = slot pt (px (suc l) va) in
      let em = same pt l (prefix (suc l) va) (px (suc l) va) e (px-lt (suc l) va) in
      elim (Bool-cases (is_valid (s.mem pte))) [
        | inl v ↦
            rw (em, v)
              (table_same m same l (pte2pa (s.mem pte)) va (omega arith) (home-child l pt va h e v))
        | inr v ↦ rw (em, v) refl
      ]

  -- A table of the last level and one of a higher level have no entry in common.
  pub last-apart :
      (x q i y l p j : ℕ)
      → home x ≡ some (0, q)
      → home y ≡ some (suc l, p)
      → i < 512
      → j < 512
      → slot x i ≢ slot y j
  last-apart x q i y l p j hx hy hi hj e =
      let xy = (slot_inj x y i j ((home-Page hx).1) ((home-Page hy).1) hi hj e).0 in
      let z = ap (λ n. n.0) (some_inj (sym hx ∙ ap home xy ∙ hy)) in absurd (omega arith)

-- The last table depends on the page only.
pub table_page :
    (m : ℕ → ℕ) (l pt va va' : ℕ)
    → l ≤ 2
    → va / 4096 ≡ va' / 4096
    → table l m pt va ≡ table l m pt va'
unfolding table
table_page m zero pt va va' h e = refl
table_page m (suc l) pt va va' h e = rw (px_page (suc l) va va' h e) (
    let pte = slot pt (px (suc l) va') in
    elim (Bool-cases (is_valid (m pte))) [
      | inl v ↦ rw v (table_page m l (pte2pa (m pte)) va va' (omega arith) e)
      | inr v ↦ rw v refl
    ])

-- `walk` without `alloc` finds the entry of the table.
pub walk_known :
    (l pt va : ℕ) (s : Kmem) → walk_from l false pt va s ≡ (slot_in va (table l s.mem pt va), s)
unfolding table walk_from
walk_known zero pt va s = refl
walk_known (suc l) pt va s =
    let pte = slot pt (px (suc l) va) in
    elim (Bool-cases (is_valid (s.mem pte))) [
      | inl v ↦ rw (v) (walk_known l (pte2pa (s.mem pte)) va s)
      | inr v ↦ rw (v) refl
    ]

-- Below `MAXVA`, `walk` does not panic.
pub walk_in :
    (alloc : Bool) (pt va : ℕ) (s : Kmem)
    → va < max_va
    → walk alloc pt va s ≡ some (walk_from 2 alloc pt va s)
unfolding walk
walk_in alloc pt va s lt = let e : leb max_va va ≡ false = ground arith in rw (e, walk) refl
