-- ===== src/Log/Write.antt =====
-- `log_write` inside a transaction: after a block is modified and logged, the transaction is still
-- ready to commit.
use mathlib.Core.Path.{subst}
use mit6s.Base.{
  u32, ◌+◌, ◌⊎◌, ℕ, ◌-◌, ◌<◌, ◌≡◌, ◌≢◌, inl, inr, refl, sym, ap, ◌∙◌, arith, fun_ext, some, update,
  update_self, update_ne,
}
use mit6s.Log.{Block, Kernel, view, modify, bpin, set_header, record_block, add_block, log_write}
use mit6s.Log.Cache.{view-modify}
use mit6s.Log.Logged.{Home, Fits}
use mit6s.Log.Commit.{Ready}
use mit6s.Log.Space.{slot, log_write-inv, added-Fits, absorbed-same}

-- What modifying and logging block `b` makes of a kernel state.
pub record LogWritten (start size b : ℕ) (x : Block) (s t : Kernel) : Type 0 where
  pub ready : Ready start size t
  pub listed : (j : ℕ) × (j < t.log.lh.n) × (t.log.lh.block j ≡ b)
  pub pinned :
      ((t.log.lh.n ≡ s.log.lh.n + 1) × (t.refcnt ≡ update s.refcnt b (u32 (s.refcnt b + 1))))
      ⊎ ((t.log.lh.n ≡ s.log.lh.n) × (t.refcnt ≡ s.refcnt))
  pub seen : view t ≡ update (view s) b x
  pub disk : t.disk ≡ s.disk
  pub images : t.images ≡ s.images
  pub limit : t.log.size ≡ s.log.size

module _ (start size b : ℕ) (x : Block) (s : Kernel) (y : Ready start size s)
    (hb : Home start size b) where
  abbrev changed : Kernel
  changed = modify b x s

  clean-ne :
      (b' : ℕ)
      → b ≢ b'
      → Home start size b'
      → ((j : ℕ) → j < s.log.lh.n → s.log.lh.block j ≢ b')
      → view changed b' ≡ s.disk b'
  clean-ne b' ne hb' far = view-modify b x s b' ∙ update_ne (view s) b x b' ne ∙ y.clean b' hb' far

  added-LogWritten :
      s.log.lh.n < size - 1
      → slot b changed ≡ s.log.lh.n
      → LogWritten start size b x s (add_block (slot b changed) b changed)
  unfolding modify bpin set_header view
  added-LogWritten room last = record {
    ready = record {
      place = y.place;
      fits = added-Fits b changed start size room hb last y.fits;
      empty = y.empty;
      clean = λ b' hb' far.
          clean-ne b'
            (λ e.
              far (slot b changed) (omega arith)
                (update_self s.log.lh.block (slot b changed) b ∙ e))
            hb'
            (λ j lt e.
              far j (omega arith)
                (update_ne s.log.lh.block (slot b changed) b j (omega arith) ∙ e));
    };
    listed = (slot b changed, omega arith, update_self s.log.lh.block (slot b changed) b);
    pinned = inl (omega arith, refl);
    seen = fun_ext (view-modify b x s);
    disk = refl;
    images = refl;
    limit = refl;
  }

  absorbed-LogWritten :
      slot b changed < s.log.lh.n
      → LogWritten start size b x s (record_block (slot b changed) b changed)
  unfolding modify view
  absorbed-LogWritten lt =
      let e : update s.log.lh.block (slot b changed) b ≡ s.log.lh.block =
        absorbed-same b changed lt in
      record {
        ready = record {
          place = y.place;
          fits = subst (λ f. Fits start size (record { n = s.log.lh.n; block = f })) (sym e) y.fits;
          empty = y.empty;
          clean = λ b' hb' far.
              clean-ne b'
                (λ p. far (slot b changed) lt (update_self s.log.lh.block (slot b changed) b ∙ p))
                hb' (λ j l p. far j l (ap (λ f. f j) e ∙ p));
        };
        listed = (slot b changed, lt, update_self s.log.lh.block (slot b changed) b);
        pinned = inr (refl, refl);
        seen = fun_ext (view-modify b x s);
        disk = refl;
        images = refl;
        limit = refl;
      }

-- In a transaction that is ready to commit, let a home block be modified and handed to
-- `log_write`, and let that not panic. Then the transaction is still ready: the list is well
-- formed, with the block in it exactly once. If it is new, its buffer has one more reference, and
-- if it is absorbed, no count has changed. Readers see the new contents, and the disk has not been
-- written.
pub log_write-Ready :
    (start size b : ℕ) (x : Block) (s t : Kernel)
    → Ready start size s
    → Home start size b
    → s.log.size ≡ size
    → log_write b (modify b x s) ≡ some t
    → LogWritten start size b x s t
unfolding modify
log_write-Ready start size b x s t y hb es e =
    let (_, room, _, how) = log_write-inv b (modify b x s) e in
    elim how [
      | inl (last, et) ↦
          subst (LogWritten start size b x s) et
            (added-LogWritten start size b x s y hb (omega arith) last)
      | inr (lt, et) ↦
          subst (LogWritten start size b x s) et (absorbed-LogWritten start size b x s y hb lt)
    ]
