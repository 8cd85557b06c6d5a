-- ===== src/Log/Logged.antt =====
-- What the disk holds of a transaction: its log, and the home blocks that are installed from it.
use mathlib.Core.Path.{subst}
use mit6s.Base.{
  ℕ, zero, suc, ◌+◌, ◌≤◌, ◌<◌, ◌≡◌, ◌≢◌, ◌⊎◌, refl, sym, ap, ◌∙◌, arith, List, [], ◌∷◌, false, none,
  update, update_ne, ℕ_discrete,
}
use mit6s.Log.{Block, Disk, Header, Kernel, view, header_of, read_head}
use mit6s.Log.Copy.{All, copied, copied-ne, copied-at}
use mit6s.Log.Heads.{copy_words-at, Holds, header_of-Holds, read_head-log}

-- The kernel at boot: nothing cached, nothing known of the log.
abbrev pub boot : Disk → Kernel
boot d = record {
  disk = d;
  images = d ∷ [];
  cache = λ _. none;
  refcnt = λ _. 0;
  log = record {
    lock = false;
    start = 0;
    size = 0;
    outstanding = 0;
    committing = false;
    lh = record { n = 0; block = λ _. 0 };
  };
  woken = 0;
}

-- A block that is not in the log area.
abbrev pub Home : ℕ → ℕ → ℕ → Type 0
Home start size b = (b < start) ⊎ (start + size ≤ b)

-- A list of blocks that the log can hold: it fits, and names home blocks, each once.
pub record Fits (start size : ℕ) (h : Header) : Type 0 where
  pub room : h.n + 1 ≤ size
  pub home : (j : ℕ) → j < h.n → Home start size (h.block j)
  pub once : (j j' : ℕ) → j < j' → j' < h.n → h.block j' ≢ h.block j

-- The log is empty and the home blocks are those of `goal`.
abbrev pub Clean : ℕ → ℕ → Disk → Disk → Type 0
Clean start size goal d = (d start 0 ≡ 0) × ((b : ℕ) → Home start size b → d b ≡ goal b)

-- The log holds the blocks of `h` as they are in `goal`, where the other home blocks are already.
pub record Logged (start size : ℕ) (h : Header) (goal d : Disk) : Type 0 where
  pub head : Holds (d start) h
  pub body : (j : ℕ) → j < h.n → d (start + j + 1) ≡ goal (h.block j)
  pub others : (b : ℕ) → Home start size b → ((j : ℕ) → j < h.n → h.block j ≢ b) → d b ≡ goal b

-- Whether block `b` is among the first `n` of a list.
pub data Found (blk : ℕ → ℕ) (b n : ℕ) : Type 0 where
  at : (j : ℕ) → j < n → blk j ≡ b → Found blk b n
  nowhere : ((j : ℕ) → j < n → blk j ≢ b) → Found blk b n

pub find : (blk : ℕ → ℕ) (b n : ℕ) → Found blk b n
find blk b zero = nowhere (λ j lt. absurd (omega arith))
find blk b (suc n) = elim (ℕ_discrete (blk n) b) [
  | yes e ↦ at n (omega arith) e
  | no ne ↦ elim (find blk b n) [
    | at j lt e ↦ at j (omega arith) e
    | nowhere f ↦
        nowhere (λ j lt. elim (ℕ_discrete j n) [ yes e ↦ rw e ne | no l ↦ f j (omega arith) ])
  ]
]

-- Installing a list makes every home block that of the goal, if the others are already.
pub copied-goal :
    (start size : ℕ) (h : Header) (goal d : Disk)
    → Fits start size h
    → ((b : ℕ) → Home start size b → ((j : ℕ) → j < h.n → h.block j ≢ b) → d b ≡ goal b)
    → (b : ℕ) → Home start size b
    → copied h.n 0 h.block (λ j. goal (h.block j)) d b ≡ goal b
copied-goal start size h goal d f others b hb = elim (find h.block b h.n) [
  | at j lt e ↦
      ap (copied h.n 0 h.block (λ j. goal (h.block j)) d) (sym e)
      ∙ copied-at h.n 0 h.block (λ j. goal (h.block j)) d j
          (λ j' lo hi. f.once j j' lo (omega arith)) (omega arith) (omega arith)
      ∙ ap goal e
  | nowhere g ↦
      copied-ne h.n 0 h.block (λ j. goal (h.block j)) d b (λ j lo hi. g j (omega arith))
      ∙ others b hb g
]

-- A home block is neither the header block nor a log block.
pub apart :
    {start size : ℕ} {h : Header}
    → Fits start size h
    → (j j' : ℕ) → j < h.n
    → j' < h.n
    → h.block j' ≢ start + j + 1
apart f j j' lt lt' = omega (arith, f.home j' lt', f.room)

-- The disk stays logged while its blocks are installed.
pub install-Logged :
    (start size : ℕ) (h : Header) (goal : Disk)
    → Fits start size h
    → (j : ℕ) (d : Disk) → j < h.n
    → Logged start size h goal d
    → Logged start size h goal (update d (h.block j) (goal (h.block j)))
install-Logged start size h goal f j d lt w = record {
  head =
      rw (update_ne d (h.block j) (goal (h.block j)) start (omega (arith, f.home j lt, f.room)))
        w.head;
  body = λ i hi.
      update_ne d (h.block j) (goal (h.block j)) (start + i + 1) (apart f i j hi lt) ∙ w.body i hi;
  others = λ b hb far. update_ne d (h.block j) (goal (h.block j)) b (far j lt) ∙ w.others b hb far;
}

-- The disk `d` holds `goal`, once its log is installed.
abbrev pub Recoverable : ℕ → ℕ → Disk → Disk → Type 0
Recoverable start size goal d = (h : Header) × Fits start size h × Logged start size h goal d

-- An empty log is a list of no blocks.
pub Clean-Recoverable :
    (start size : ℕ) (goal d : Disk)
    → 1 ≤ size
    → Clean start size goal d
    → Recoverable start size goal d
Clean-Recoverable start size goal d room w = (
  record { n = 0; block = λ _. 0 },
  record {
    room = room;
    home = λ j lt. absurd (omega arith);
    once = λ j j' lo hi. absurd (omega arith);
  },
  record {
    head = record { len = w.0; nums = λ i lt. absurd (omega arith) };
    body = λ j lt. absurd (omega arith);
    others = λ b hb far. w.1 b hb;
  },
)

-- Two headers with the same list.
abbrev pub Agree : Header → Header → Type 0
Agree h g = (g.n ≡ h.n) × ((i : ℕ) → i < h.n → g.block i ≡ h.block i)

pub Fits-Agree : {start size : ℕ} (h g : Header) → Agree h g → Fits start size h → Fits start size g
Fits-Agree {start} {size} h g e f = record {
  room = omega (arith, f.room, e.0);
  home = λ j lt.
      let lt' : j < h.n = omega (arith, e.0) in
      subst (Home start size) (sym (e.1 j lt')) (f.home j lt');
  once = λ j j' lo hi p.
      let hi' : j' < h.n = omega (arith, e.0) in
      f.once j j' lo hi' (sym (e.1 j' hi') ∙ p ∙ e.1 j (omega arith));
}

pub read_head-Agree :
    (s : Kernel) (h : Header) → Holds (view s s.log.start) h → Agree h ((read_head s).log.lh)
read_head-Agree s h w =
    subst (Agree h) (sym (ap (λ l. l.lh) (read_head-log s)))
      (header_of-Holds (view s s.log.start) h (s.log.lh) w)

pub Logged-Agree :
    {start size : ℕ} {goal d : Disk} (h g : Header)
    → Agree h g
    → Holds (d start) g
    → Logged start size h goal d
    → Logged start size g goal d
Logged-Agree {goal} h g e held w = record {
  head = held;
  body = λ j lt. let lt' : j < h.n = omega (arith, e.0) in w.body j lt' ∙ ap goal (sym (e.1 j lt'));
  others = λ b hb far. w.others b hb (λ j lt p. far j (omega (arith, e.0)) (e.1 j lt ∙ p));
}

pub header_of-Holds_self : (x : Block) (old : Header) → Holds x (header_of x old)
unfolding header_of
header_of-Holds_self x old = record {
  len = refl;
  nums =
      λ i lt. sym (copy_words-at (x 0) 0 (λ j. x (suc j)) old.block i (omega arith) (omega arith));
}

All-map : {P Q : Disk → Type 0} (ds : List Disk) → ((d : Disk) → P d → Q d) → All P ds → All Q ds
All-map [] f h = tt
All-map (d ∷ ds) f h = (f d h.0, All-map ds f h.1)
