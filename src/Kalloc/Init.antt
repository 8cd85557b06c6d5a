-- ===== src/Kalloc/Init.antt =====
-- `kinit`: the free list that the kernel starts with.
use mit6s.Base.{
  ℕ, zero, suc, ◌+◌, ◌-◌, ◌*◌, ◌/◌, ◌%◌, ◌≤◌, ◌<◌, ◌≡◌, refl, ap, ◌∙◌, arith, Bool, true, false,
  Option, none, some, List, [], ◌∷◌, leb,
}
use mit6s.Kalloc.{page_size, phys_stop, page_round_up, Kmem, freerange_from, freerange, kinit}
use mit6s.Kalloc.Pages.{NotIn, Page, Listed}
use mit6s.Kalloc.Owners.{Sound, freed, kfree-Page, freed-Listed}

-- The `k` pages from `p` on, the last one first, before `xs`.
abbrev pub pages_up : ℕ → ℕ → List ℕ → List ℕ
pages_up zero p xs = xs
pages_up (suc k) p xs = pages_up k (p + page_size) (p ∷ xs)

abbrev Below : ℕ → List ℕ → Type 0
Below p [] = Unit {0}
Below p (x ∷ xs) = (x < p) × Below p xs

Below-NotIn : (p : ℕ) (xs : List ℕ) → Below p xs → NotIn p xs
Below-NotIn p [] b = tt
Below-NotIn p (x ∷ xs) (lt, b) = (λ e. absurd (omega arith), Below-NotIn p xs b)

Below-more : (p q : ℕ) (xs : List ℕ) → p ≤ q → Below p xs → Below q xs
Below-more p q [] le b = tt
Below-more p q (x ∷ xs) le (lt, b) = (omega arith, Below-more p q xs le b)

abbrev pub nobody : ℕ → Bool
nobody p = false

freerange_from-stop :
    (fuel end p pa_end : ℕ) (s : Kmem)
    → pa_end < p + page_size
    → freerange_from (suc fuel) end p pa_end s ≡ some s
unfolding freerange_from
freerange_from-stop fuel end p pa_end s lt =
    let e : leb (p + page_size) pa_end ≡ false = ground arith in rw e refl

freerange_from-Page :
    (fuel end p pa_end : ℕ) (s : Kmem)
    → p + page_size ≤ pa_end
    → Page end p
    → freerange_from (suc fuel) end p pa_end s
      ≡ freerange_from fuel end (p + page_size) pa_end (freed p s)
unfolding freerange_from
freerange_from-Page fuel end p pa_end s le pg =
    let e : leb (p + page_size) pa_end ≡ true = ground arith in
    let go : Option Kmem → Option Kmem =
      λ r. elim r [ none ↦ none | some t ↦ freerange_from fuel end (p + page_size) pa_end t ] in
    rw e (ap go (kfree-Page end p s pg))

freerange_from-Listed :
    (fuel k end p pa_end : ℕ) (s : Kmem) (xs : List ℕ)
    → k < fuel
    → 0 < p
    → p % page_size ≡ 0
    → end ≤ p
    → pa_end ≤ phys_stop
    → p + k * page_size ≤ pa_end
    → pa_end < p + k * page_size + page_size
    → Below p xs
    → Listed end nobody s.mem s.freelist xs
    → (t : Kmem) × (freerange_from fuel end p pa_end s ≡ some t)
      × Listed end nobody t.mem t.freelist (pages_up k p xs)
freerange_from-Listed zero k end p pa_end s xs fu pos_p al lo hi le lt b l = absurd (omega arith)
freerange_from-Listed (suc fuel) zero end p pa_end s xs fu pos_p al lo hi le lt b l =
    (s, freerange_from-stop fuel end p pa_end s (omega arith), l)
freerange_from-Listed (suc fuel) (suc k) end p pa_end s xs fu pos_p al lo hi le lt b l =
    let pg : Page end p = (pos_p, al, lo, omega arith) in
    let (t, e, lt') =
      freerange_from-Listed fuel k end (p + page_size) pa_end (freed p s) (p ∷ xs) (omega arith)
        (omega arith) (omega arith) (omega arith) hi (omega arith) (omega arith)
        (omega arith, Below-more p (p + page_size) xs (omega arith) b)
        (freed-Listed end p nobody nobody s xs pg refl (λ x ne. refl) (Below-NotIn p xs b) l) in
    (t, freerange_from-Page fuel end p pa_end s (omega arith) pg ∙ e, lt')

-- How many pages lie between the kernel and the end of memory.
abbrev pub page_count : ℕ → ℕ
page_count end = (phys_stop - page_round_up end) / page_size

-- `kinit`, with more fuel than there are pages, on an empty list: it ends without a panic, and the
-- free list is all pages from the first one after the kernel to the end of memory, from the last
-- down. Nobody holds a page, so the heap is sound.
pub kinit-Listed :
    (fuel end : ℕ) (s : Kmem)
    → 0 < end
    → page_round_up end ≤ phys_stop
    → page_count end < fuel
    → s.freelist ≡ 0
    → (t : Kmem) × (kinit fuel end s ≡ some t)
      × Listed end nobody t.mem t.freelist (pages_up (page_count end) (page_round_up end) [])
      × Sound end (record { kmem = t; own = nobody })
unfolding kinit freerange
kinit-Listed fuel end s pos_e room more z =
    let (t, e, l) =
      freerange_from-Listed fuel (page_count end) end (page_round_up end) phys_stop
        (record s { lock = false }) [] more (omega arith) (omega arith) (omega arith) (omega arith)
        (omega arith) (omega arith) tt z in
    (
      t,
      e,
      l,
      record {
        free = pages_up (page_count end) (page_round_up end) [];
        listed = l;
        pages = λ p o. absurd cc;
      },
    )
