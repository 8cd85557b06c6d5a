-- ===== src/Pipe/Receive.antt =====
-- What one stretch of `piperead` takes out of the pipe, and where it puts it, on every branch.
use mit6s.Base.{
  ℕ, zero, suc, ◌+◌, ◌^◌, ◌≤◌, ◌<◌, List, [], ◌∷◌, ◌++◌, ◌≡◌, refl, ap, ap₂, ◌∙◌, sym, arith, ◌≢◌,
  ◌⊎◌, inl, inr, Bool, true, false, ◌&&◌, ℤ, pos, negsuc, pos_part, minus_one, u64, ◌==◌,
  if◌then◌else◌, update, Bool-cases, length, update_self, update_ne, ℕ_discrete,
}
use mit6s.Pipe.{
  nread_chan, nwrite_chan, Sys, User, Outcome, returned, asleep, acquire, release, wakeup, get,
  head_byte, read_from, piperead,
}
use mit6s.Pipe.Ring.{count, IsValid, contents, get-IsValid, contents-get}
use mit6s.Pipe.Transfer.{bytes_at}

-- Why the loop of `piperead` stopped after `m` of `k` rounds, with `lost` taken out of the pipe
-- and not delivered.
abbrev pub Stopped : User → ℕ → ℕ → ℕ → ℕ → List ℕ → Sys → Type 0
Stopped u addr k i m lost t =
    ((lost ≡ []) × ((m ≡ k) ⊎ (count (t.pi) ≡ 0)))
    ⊎ ((length lost ≡ 1) × (m < k) × (u.mapped (u64 (addr + (i + m))) ≡ false))

-- What the loop of `piperead` did, from index `i` with `k` rounds left.
pub record Took (addr k i m : ℕ) (lost : List ℕ) (u : User) (s : Sys) (u' : User) (t : Sys)
    : Type 0 where
  pub valid : IsValid (t.pi)
  pub at_most : m ≤ k
  pub delivered : contents (s.pi) ≡ bytes_at u' addr i m ++ (lost ++ contents (t.pi))
  pub frame : (a : ℕ) → ((j : ℕ) → i ≤ j → j < i + k → a ≢ u64 (addr + j)) → u'.byte a ≡ u.byte a
  pub unlocked : t.pi.lock ≡ false
  pub readopen_kept : t.pi.readopen ≡ s.pi.readopen
  pub writeopen_kept : t.pi.writeopen ≡ s.pi.writeopen
  pub writers_woken : t.woken ≡ nwrite_chan ∷ s.woken
  pub stopped : Stopped u addr k i m lost t

module _ (addr k i : ℕ) (u : User) (s : Sys) where
  read_from-empty :
      s.pi.nread ≡ s.pi.nwrite
      → read_from addr (suc k) i u s ≡ (returned (pos i), u, release (wakeup nwrite_chan s))
  unfolding read_from
  read_from-empty h = ground arith

  read_from-unmapped :
      s.pi.nread ≢ s.pi.nwrite
      → u.mapped (u64 (addr + i)) ≡ false
      → read_from addr (suc k) i u s
        ≡ (returned (pos i), u, release (wakeup nwrite_chan (record s { pi = get (s.pi) })))
  unfolding read_from
  read_from-unmapped h b = ground arith

  read_from-byte :
      s.pi.nread ≢ s.pi.nwrite
      → u.mapped (u64 (addr + i)) ≡ true
      → read_from addr (suc k) i u s
        ≡ read_from addr k
            (i + 1)
            (record u { byte = update u.byte (u64 (addr + i)) (head_byte (s.pi)) })
            (record s { pi = get (s.pi) })
  unfolding read_from
  read_from-byte h b = ground arith

  empty-Took :
      IsValid (s.pi)
      → (0 ≡ k) ⊎ (count (s.pi) ≡ 0)
      → Took addr k i 0 [] u s u (release (wakeup nwrite_chan s))
  empty-Took v why = ground arith

  unmapped-Took :
      IsValid (s.pi)
      → 0 < k
      → 0 < count (s.pi)
      → u.mapped (u64 (addr + i)) ≡ false
      → Took addr k i 0
          (head_byte (s.pi) ∷ [])
          u
          s
          u
          (release (wakeup nwrite_chan (record s { pi = get (s.pi) })))
  unfolding get
  unmapped-Took v more h b = ground (arith, get-IsValid v h, contents-get v h)

  byte-Took :
      (m : ℕ) (lost : List ℕ) (u' : User) (t : Sys)
      → i + suc k < 2 ^ 64
      → IsValid (s.pi)
      → 0 < count (s.pi)
      → Took addr k
          (i + 1)
          m
          lost
          (record u { byte = update u.byte (u64 (addr + i)) (head_byte (s.pi)) })
          (record s { pi = get (s.pi) })
          u'
          t
      → Took addr (suc k) i (suc m) lost u s u' t
  unfolding get
  byte-Took m lost u' t fits v h w = record {
    valid = w.valid;
    at_most = omega arith;
    delivered =
        contents-get v h
        ∙ ap₂ ◌∷◌
            (sym (
              w.frame (u64 (addr + i)) (λ j lo hi. omega arith)
              ∙ update_self u.byte (u64 (addr + i)) (head_byte (s.pi))))
            w.delivered;
    frame = λ a far.
        w.frame a (λ j lo hi. far j (omega arith) (omega arith))
        ∙ update_ne u.byte (u64 (addr + i)) (head_byte (s.pi)) a
            (λ e. far i (omega arith) (omega arith) (sym e));
    unlocked = w.unlocked;
    readopen_kept = w.readopen_kept;
    writeopen_kept = w.writeopen_kept;
    writers_woken = w.writers_woken;
    stopped = ground arith;
  }

at_index : {a b : ℕ} → a ≡ b → returned (pos a) ≡ returned (pos b)
at_index e = ap (λ x. returned (pos x)) e

shift : (i m : ℕ) → i + 1 + m ≡ i + suc m
shift i m = omega arith

-- A read stretch of the loop: the bytes delivered, the bytes lost, and the state after it.
read_from-Took :
    (addr k i : ℕ) (u : User) (s : Sys)
    → i + k < 2 ^ 64
    → IsValid (s.pi)
    → (m : ℕ) × (lost : List ℕ) × (read_from addr k i u s).0 ≡ returned (pos (i + m))
      × Took addr k i m lost u s (read_from addr k i u s).1 (read_from addr k i u s).2
unfolding read_from
read_from-Took addr zero i u s f v =
    (0, [], at_index (omega arith), empty-Took addr 0 i u s v (inl refl))
read_from-Took addr (suc k) i u s f v = elim (ℕ_discrete (s.pi.nread) (s.pi.nwrite)) [
  | yes e ↦
      rw (read_from-empty addr k i u s e)
        (0, [], at_index (omega arith), empty-Took addr (suc k) i u s v (inr (omega arith)))
  | no ne ↦ elim (Bool-cases (u.mapped (u64 (addr + i)))) [
    | inr bad ↦ rw (read_from-unmapped addr k i u s ne bad) (
      0,
      head_byte (s.pi) ∷ [],
      at_index (omega arith),
      unmapped-Took addr (suc k) i u s v (omega arith) (omega arith) bad,
    )
    | inl good ↦
        let (m, lost, e, w) =
          read_from-Took addr k (i + 1)
            (record u { byte = update u.byte (u64 (addr + i)) (head_byte (s.pi)) })
            (record s { pi = get (s.pi) }) (omega arith) (get-IsValid v (omega arith)) in
        rw (read_from-byte addr k i u s ne good) (
          suc m,
          lost,
          e ∙ at_index (shift i m),
          byte-Took addr k i u s m lost _ _ f v (omega arith) w,
        )
  ]
]

-- How a stretch of `piperead` ends, from a valid pipe and for `n` bytes.
abbrev pub ReadEnd : ℕ → Bool → ℤ → User → Sys → Outcome × User × Sys → Type 0
ReadEnd addr killed n u s (returned (pos m), u', t) =
    (lost : List ℕ) × Took addr (pos_part n) 0 m lost u s u' t
ReadEnd addr killed n u s (returned (negsuc d), u', t) =
    (d ≡ 0)
    × (killed ≡ true)
    × (count (s.pi) ≡ 0)
    × (s.pi.writeopen ≡ true)
    × (u' ≡ u)
    × (t ≡ release s)
ReadEnd addr killed n u s (asleep c j, u', t) =
    (c ≡ nread_chan)
    × (killed ≡ false)
    × (count (s.pi) ≡ 0)
    × (s.pi.writeopen ≡ true)
    × (u' ≡ u)
    × (t ≡ release s)

acquire-Took :
    (addr k i m : ℕ) (lost : List ℕ) (u : User) (s : Sys) (u' : User) (t : Sys)
    → Took addr k i m lost u (acquire s) u' t
    → Took addr k i m lost u s u' t
acquire-Took addr k i m lost u s u' t w = record {
  valid = w.valid;
  at_most = w.at_most;
  delivered = w.delivered;
  frame = w.frame;
  unlocked = w.unlocked;
  readopen_kept = w.readopen_kept;
  writeopen_kept = w.writeopen_kept;
  writers_woken = w.writers_woken;
  stopped = w.stopped;
}

ReadEnd-Took :
    (addr : ℕ) (killed : Bool) (n : ℤ) (u : User) (s : Sys) (m : ℕ) (lost : List ℕ)
    (out : Outcome × User × Sys)
    → out.0 ≡ returned (pos m)
    → Took addr (pos_part n) 0 m lost u s out.1 out.2
    → ReadEnd addr killed n u s out
ReadEnd-Took addr killed n u s m lost (returned (pos r), u', t) e w =
    (lost, let e' : m ≡ r = cc in rw (← e') w)
ReadEnd-Took addr killed n u s m lost (returned (negsuc d), u', t) e w = cc
ReadEnd-Took addr killed n u s m lost (asleep c j, u', t) e w = cc

module _ (addr : ℕ) (killed : Bool) (n : ℤ) (u : User) (s : Sys) where
  -- The test of the `while` of `piperead`.
  abbrev waits : Bool
  waits = s.pi.nread == s.pi.nwrite && s.pi.writeopen

  piperead-loop :
      waits ≡ false → piperead addr killed n u s ≡ read_from addr (pos_part n) 0 u (acquire s)
  unfolding piperead
  piperead-loop h = rw h

  piperead-waits :
      waits ≡ true
      → piperead addr killed n u s ≡ (
          if killed
          then (returned minus_one, u, release s)
          else (asleep nread_chan 0, u, release s))
  unfolding piperead
  piperead-waits h = rw h

pub piperead_lem :
    (addr : ℕ) (killed : Bool) (n : ℤ) (u : User) (s : Sys)
    → pos_part n < 2 ^ 31
    → IsValid (s.pi)
    → ReadEnd addr killed n u s (piperead addr killed n u s)
piperead_lem addr killed n u s small v = elim (Bool-cases (waits addr killed n u s)) [
  | inl e ↦ rw (piperead-waits addr killed n u s e) (ground arith)
  | inr ne ↦
      let (m, lost, e, w) =
        read_from-Took addr (pos_part n) 0 u (acquire s) (omega arith) (ground arith) in
      rw (piperead-loop addr killed n u s ne) (
        ReadEnd-Took addr killed n u s m lost _ (e ∙ at_index (omega arith))
          (acquire-Took addr (pos_part n) 0 m lost u s _ _ w))
]
