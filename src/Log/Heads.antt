-- ===== src/Log/Heads.antt =====
-- Reading and writing the header block.
use mit6s.Base.{
  ℕ, zero, suc, ◌+◌, ◌≤◌, ◌<◌, ◌≡◌, ◌≢◌, refl, ◌∙◌, arith, fun_ext, ◌∷◌, update, ℕ_discrete,
  update_self, update_ne, ==_refl,
}
use mit6s.Log.{
  Block, Header, Kernel, view, copy_words, head_words, header_of, read_head, write_head,
}
use mit6s.Log.Cache.{view_laws}

-- The words that the loops copy, and those that they leave alone.
copy_words-ne :
    (k i : ℕ) (from to : ℕ → ℕ) (j : ℕ)
    → ((m : ℕ) → i ≤ m → m < i + k → m ≢ j)
    → copy_words k i from to j ≡ to j
unfolding copy_words
copy_words-ne zero i from to j far = refl
copy_words-ne (suc k) i from to j far =
    copy_words-ne k (i + 1) from _ j (λ m lo hi. far m (omega arith) (omega arith))
    ∙ update_ne to i (from i) j (far i (omega arith) (omega arith))

pub copy_words-at :
    (k i : ℕ) (from to : ℕ → ℕ) (j : ℕ) → i ≤ j → j < i + k → copy_words k i from to j ≡ from j
unfolding copy_words
copy_words-at zero i from to j lo hi = absurd (omega arith)
copy_words-at (suc k) i from to j lo hi = elim (ℕ_discrete i j) [
  | yes e ↦
      copy_words-ne k (i + 1) from _ j (λ m lo' hi'. omega arith) ∙ rw e (update_self to j (from j))
  | no ne ↦ copy_words-at k (i + 1) from _ j (omega arith) (omega arith)
]

-- A block that holds the header: its length, and its block numbers.
pub record Holds (x : Block) (h : Header) : Type 0 where
  pub len : x 0 ≡ h.n
  pub nums : (i : ℕ) → i < h.n → x (suc i) ≡ h.block i

pub head_words-Holds : (h : Header) (old : Block) → Holds (head_words h old) h
unfolding head_words
head_words-Holds h old = record {
  len = refl;
  nums = λ i lt. copy_words-at h.n 0 h.block _ i (omega arith) (omega arith);
}

module _ (s : Kernel) where
  -- `write_head` writes one block.
  abbrev pub new_head : Block
  new_head = head_words (s.log.lh) (view s (s.log.start))

  pub write_head-disk : (write_head s).disk ≡ update s.disk s.log.start new_head
  unfolding write_head
  write_head-disk = simp (view_laws, ==_refl)

  pub write_head-images : (write_head s).images ≡ update s.disk s.log.start new_head ∷ s.images
  unfolding write_head
  write_head-images = simp (view_laws, ==_refl)

  pub write_head-view : view (write_head s) ≡ update (view s) s.log.start new_head
  unfolding write_head
  write_head-view = fun_ext λ x. simp view_laws

  pub write_head-log : (write_head s).log ≡ s.log
  unfolding write_head
  write_head-log = simp view_laws

  pub read_head-disk : (read_head s).disk ≡ s.disk
  unfolding read_head
  read_head-disk = simp view_laws

  pub read_head-images : (read_head s).images ≡ s.images
  unfolding read_head
  read_head-images = simp view_laws

  pub read_head-view : view (read_head s) ≡ view s
  unfolding read_head
  read_head-view = fun_ext λ x. simp view_laws

  pub read_head-log :
      (read_head s).log ≡ record (s.log) { lh = header_of (view s s.log.start) (s.log.lh) }
  unfolding read_head
  read_head-log = simp view_laws

-- Reading a header that a block holds gives it back, up to the array's unused entries.
pub header_of-Holds :
    (x : Block) (h old : Header)
    → Holds x h
    → ((header_of x old).n ≡ h.n) × ((i : ℕ) → i < h.n → (header_of x old).block i ≡ h.block i)
unfolding header_of
header_of-Holds x h old w = (
  w.len,
  λ i lt. copy_words-at (x 0) 0 _ old.block i (omega arith) (omega (arith, w.len)) ∙ w.nums i lt,
)
