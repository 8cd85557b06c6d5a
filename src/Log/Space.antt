-- ===== src/Log/Space.antt =====
-- The log's space: `begin_op` admits an operation only if all that are open may still write
-- MAXOPBLOCKS blocks each, so that `log_write` does not panic in an operation that keeps to that.
use mathlib.Core.Path.{subst}
use mit6s.Base.{
  some_inj, ℕ, zero, suc, ◌+◌, ◌-◌, ◌≤◌, ◌<◌, ◌≡◌, ◌≢◌, ◌⊎◌, arith, some, inl, inr, Bool-cases, ltb,
  leb, ◌==◌, ◌||◌, update, update_self, update_ne, sym, ◌∙◌, fun_ext, ℕ_discrete,
}
use mit6s.Log.{Kernel, log_size, log_write, find_block, record_block, add_block}
use mit6s.Log.Logged.{Home, Fits}

-- The search stops at an index within the list, or at its end.
find_block-le :
    (k i : ℕ) (blk : ℕ → ℕ) (b : ℕ) → (i ≤ find_block k i blk b) × (find_block k i blk b ≤ i + k)
unfolding find_block
find_block-le zero i blk b = omega arith
find_block-le (suc k) i blk b = ground (arith, find_block-le k (i + 1) blk b)

-- Where it stops inside the list, the block stands; before that it does not.
pub find_block-at :
    (k i : ℕ) (blk : ℕ → ℕ) (b : ℕ) → find_block k i blk b < i + k → blk (find_block k i blk b) ≡ b
unfolding find_block
find_block-at zero i blk b h = absurd (omega arith)
find_block-at (suc k) i blk b h = ground (arith, find_block-at k (i + 1) blk b)

find_block-ne : (k i : ℕ) (blk : ℕ → ℕ) (b j : ℕ) → i ≤ j → j < find_block k i blk b → blk j ≢ b
unfolding find_block
find_block-ne zero i blk b j lo hi = absurd (omega arith)
find_block-ne (suc k) i blk b j lo hi = ground (arith, find_block-ne k (i + 1) blk b j)

module _ (b : ℕ) (s : Kernel) where
  -- The index at which `log_write` stores.
  abbrev pub slot : ℕ
  slot = find_block s.log.lh.n 0 s.log.lh.block b

  -- A `log_write` that does not panic.
  pub log_write-inv :
      {t : Kernel}
      → log_write b s ≡ some t
      → (s.log.lh.n < log_size)
        × (s.log.lh.n < s.log.size - 1)
        × (1 ≤ s.log.outstanding)
        × ((slot ≡ s.log.lh.n) × (add_block slot b s ≡ t)
            ⊎ ((slot < s.log.lh.n) × (record_block slot b s ≡ t)))
  unfolding log_write
  log_write-inv {t} e =
      elim (Bool-cases (leb log_size s.log.lh.n || leb (s.log.size - 1) s.log.lh.n)) [
        | inl full ↦ absurd (cc (rw full at e))
        | inr room ↦ elim (Bool-cases (ltb (s.log.outstanding) 1)) [
          | inl out ↦ absurd (cc ((rw (room, out) at e)))
          | inr in_op ↦ elim (Bool-cases (slot == s.log.lh.n)) [
            | inl last ↦ (
              ground arith,
              ground arith,
              ground arith,
              inl (ground arith, some_inj (rw (room, in_op, last) at e)),
            )
            | inr old ↦ (
              ground arith,
              ground arith,
              ground arith,
              inr (
                ground (arith, find_block-le s.log.lh.n 0 s.log.lh.block b),
                some_inj (rw (room, in_op, old) at e),
              ),
            )
          ]
        ]
      ]

  -- A `log_write` keeps the list well formed: the block is in it once, whether new or absorbed.
  pub added-Fits :
      (start size : ℕ)
      → s.log.lh.n < size - 1
      → Home start size b
      → slot ≡ s.log.lh.n
      → Fits start size (s.log.lh)
      → Fits start size (record { n = s.log.lh.n + 1; block = update s.log.lh.block slot b })
  added-Fits start size room hb last f = record {
    room = omega arith;
    home = λ j lt. elim (ℕ_discrete slot j) [
      | yes e ↦ subst (Home start size) (sym (update_at e)) hb
      | no ne ↦
          subst (Home start size) (sym (update_ne s.log.lh.block slot b j ne))
            (f.home j (omega arith))
    ];
    once = λ j j' lo hi p. elim (ℕ_discrete slot j') [
      | yes e ↦
          find_block-ne s.log.lh.n 0 s.log.lh.block b j (omega arith) (omega arith)
            (sym (update_ne s.log.lh.block slot b j (omega arith)) ∙ sym p ∙ update_at e)
      | no ne ↦ f.once j j' lo (omega arith) (
          sym (update_ne s.log.lh.block slot b j' ne)
          ∙ p
          ∙ update_ne s.log.lh.block slot b j (omega arith))
    ];
  }
    where
      update_at : {j : ℕ} → slot ≡ j → update s.log.lh.block slot b j ≡ b
      update_at {j} e = rw (← e) (update_self s.log.lh.block slot b)

  -- An absorbed block leaves the list as it is.
  pub absorbed-same : slot < s.log.lh.n → update s.log.lh.block slot b ≡ s.log.lh.block
  absorbed-same lt = fun_ext λ j. elim (ℕ_discrete slot j) [
    | yes e ↦ rw (← e) (
        update_self s.log.lh.block slot b
        ∙ sym (find_block-at s.log.lh.n 0 s.log.lh.block b (omega arith)))
    | no ne ↦ update_ne s.log.lh.block slot b j ne
  ]
