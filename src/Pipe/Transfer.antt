-- ===== src/Pipe/Transfer.antt =====
-- What one stretch of `pipewrite` and of `piperead` moves, on every branch.
use mit6s.Base.{
  sym, ◌∙◌, ap, ap₂, length, length-append, ℕ, zero, suc, ◌+◌, ◌-◌, ◌≤◌, ◌<◌, List, [], ◌∷◌, ◌++◌,
  ◌≡◌, refl, arith, ◌⊎◌, inl, inr, Bool, true, false, ℤ, pos, negsuc, pos_part, u64, Bool-cases,
  append-nil, append_assoc,
}
use mit6s.Pipe.{
  nread_chan, nwrite_chan, Pipe, Sys, User, Outcome, returned, asleep, acquire, release, wakeup,
  pipe_size, is_full, put, write_blocked, write_from, pipewrite,
}
use mit6s.Pipe.Ring.{count, IsValid, contents, put-IsValid, length-window, contents-put}

-- The bytes of user memory at `addr + i`, ..., `addr + i + n - 1`.
abbrev pub bytes_at : User → ℕ → ℕ → ℕ → List ℕ
bytes_at u addr i zero = []
bytes_at u addr i (suc n) = u.byte (u64 (addr + i)) ∷ bytes_at u addr (i + 1) n

-- The ring is full exactly when it holds PIPESIZE bytes, although the counters wrap.
pub not_full-count : {p : Pipe} → IsValid p → is_full p ≡ false → count p < pipe_size
not_full-count v h = ground arith

-- How a write stretch that started at index `i` with `k` rounds left may end after `m` bytes.
abbrev pub WriteEnd : User → ℕ → Bool → ℕ → ℕ → ℕ → Sys → Outcome × Sys → Type 0
WriteEnd u addr killed k i m s (returned (pos r), t) =
    (r ≡ i + m)
    × (t.woken ≡ nread_chan ∷ s.woken)
    × ((m ≡ k) ⊎ (u.mapped (u64 (addr + (i + m))) ≡ false))
WriteEnd u addr killed k i m s (returned (negsuc d), t) =
    (d ≡ 0)
    × (t.woken ≡ s.woken)
    × (m < k)
    × (count (t.pi) ≡ pipe_size)
    × ((s.pi.readopen ≡ false) ⊎ (killed ≡ true))
WriteEnd u addr killed k i m s (asleep c j, t) =
    (c ≡ nwrite_chan)
    × (j ≡ i + m)
    × (t.woken ≡ nread_chan ∷ s.woken)
    × (m < k)
    × (count (t.pi) ≡ pipe_size)
    × (s.pi.readopen ≡ true)
    × (killed ≡ false)

-- What a write stretch did when it stopped after `m` bytes.
pub record Wrote (u : User) (addr : ℕ) (killed : Bool) (k i m : ℕ) (s : Sys) (out : Outcome × Sys)
    : Type 0 where
  pub valid : IsValid (out.1.pi)
  pub at_most : m ≤ k
  pub bytes : contents (out.1.pi) ≡ contents (s.pi) ++ bytes_at u addr i m
  pub unlocked : out.1.pi.lock ≡ false
  pub readopen_kept : out.1.pi.readopen ≡ s.pi.readopen
  pub writeopen_kept : out.1.pi.writeopen ≡ s.pi.writeopen
  pub ending : WriteEnd u addr killed k i m s out

write_blocked-Wrote :
    (u : User) (addr : ℕ) (killed : Bool) (k i : ℕ) (s : Sys)
    → IsValid (s.pi)
    → is_full (s.pi) ≡ true
    → Wrote u addr killed (suc k) i 0 s (write_blocked killed i s)
unfolding write_blocked
write_blocked-Wrote u addr killed k i s v full = ground (arith, append-nil (contents (s.pi)))

finished-Wrote :
    (u : User) (addr : ℕ) (killed : Bool) (k i : ℕ) (s : Sys)
    → IsValid (s.pi)
    → (0 ≡ k) ⊎ (u.mapped (u64 (addr + i)) ≡ false)
    → Wrote u addr killed k i 0 s (returned (pos i), release (wakeup nread_chan s))
finished-Wrote u addr killed k i s v why = ground (arith, append-nil (contents (s.pi)))

-- One byte written, and then a stretch from the next index on.
more-Wrote :
    (u : User) (addr : ℕ) (killed : Bool) (k i m : ℕ) (s : Sys) (out : Outcome × Sys)
    → IsValid (s.pi)
    → count (s.pi) < pipe_size
    → let t = record s { pi = put (u.byte (u64 (addr + i))) (s.pi) } in
      Wrote u addr killed k (i + 1) m t out → Wrote u addr killed (suc k) i (suc m) s out
unfolding put
more-Wrote u addr killed k i m s (returned (pos r), t) v h w = ground (
  arith,
  contents-put {p = s.pi} (u.byte (u64 (addr + i))) v h,
  append_assoc (contents (s.pi)) (u.byte (u64 (addr + i)) ∷ []) (bytes_at u addr (i + 1) m),
)
more-Wrote u addr killed k i m s (returned (negsuc d), t) v h w = ground (
  arith,
  contents-put {p = s.pi} (u.byte (u64 (addr + i))) v h,
  append_assoc (contents (s.pi)) (u.byte (u64 (addr + i)) ∷ []) (bytes_at u addr (i + 1) m),
)
more-Wrote u addr killed k i m s (asleep c j, t) v h w = ground (
  arith,
  contents-put {p = s.pi} (u.byte (u64 (addr + i))) v h,
  append_assoc (contents (s.pi)) (u.byte (u64 (addr + i)) ∷ []) (bytes_at u addr (i + 1) m),
)

module _ (u : User) (addr : ℕ) (killed : Bool) (k i : ℕ) (s : Sys) where
  write_from-full :
      is_full (s.pi) ≡ true → write_from u addr killed (suc k) i s ≡ write_blocked killed i s
  unfolding write_from
  write_from-full h = ground arith

  write_from-unmapped :
      is_full (s.pi) ≡ false
      → u.mapped (u64 (addr + i)) ≡ false
      → write_from u addr killed (suc k) i s ≡ (returned (pos i), release (wakeup nread_chan s))
  unfolding write_from
  write_from-unmapped h b = ground arith

  write_from-byte :
      is_full (s.pi) ≡ false
      → u.mapped (u64 (addr + i)) ≡ true
      → write_from u addr killed (suc k) i s
        ≡ write_from u addr killed k
            (i + 1)
            (record s { pi = put (u.byte (u64 (addr + i))) (s.pi) })
  unfolding write_from
  write_from-byte h b = ground arith

write_from-Wrote :
    (u : User) (addr : ℕ) (killed : Bool) (k i : ℕ) (s : Sys)
    → IsValid (s.pi)
    → (m : ℕ) × Wrote u addr killed k i m s (write_from u addr killed k i s)
unfolding write_from
write_from-Wrote u addr killed zero i s v = (0, finished-Wrote u addr killed 0 i s v (inl refl))
write_from-Wrote u addr killed (suc k) i s v = elim (Bool-cases (is_full (s.pi))) [
  | inl full ↦ (
    0,
    rw (write_from-full u addr killed k i s full) (write_blocked-Wrote u addr killed k i s v full),
  )
  | inr room ↦ elim (Bool-cases (u.mapped (u64 (addr + i)))) [
    | inr bad ↦ (
      0,
      rw (write_from-unmapped u addr killed k i s room bad)
          (finished-Wrote u addr killed (suc k) i s v (inr bad)),
    )
    | inl good ↦
        let h = not_full-count v room in
        let ch : ℕ = u.byte (u64 (addr + i)) in
        let (m, w) =
          write_from-Wrote u addr killed k (i + 1) (record s { pi = put ch (s.pi) })
            (put-IsValid ch v h) in
        (
          suc m,
          rw (write_from-byte u addr killed k i s room good)
              (more-Wrote u addr killed k i m s _ v h w),
        )
  ]
]

-- Taking the lock first makes no difference to what a stretch does.
acquire-Wrote :
    (u : User) (addr : ℕ) (killed : Bool) (k i m : ℕ) (s : Sys) (out : Outcome × Sys)
    → Wrote u addr killed k i m (acquire s) out
    → Wrote u addr killed k i m s out
acquire-Wrote u addr killed k i m s (returned (pos r), t) w = ground arith
acquire-Wrote u addr killed k i m s (returned (negsuc d), t) w = ground arith
acquire-Wrote u addr killed k i m s (asleep c j, t) w = ground arith

-- One stretch of `pipewrite`, for any valid pipe and any index `i` to start from: some `m` bytes
-- of user memory from `addr + i` on have been appended to the pipe's contents in order, the pipe
-- is still valid, the ends are open as before and the lock is released. The stretch returns
-- `i + m` and wakes the readers if all `n` bytes are written or the next address is not mapped;
-- it returns -1 only if the ring is full and the read end is closed or the process killed; and it
-- sleeps on `nwrite` only if the ring is full, the read end open and the process not killed,
-- having woken the readers first.
pub pipewrite_lem :
    (u : User) (addr : ℕ) (killed : Bool) (n : ℤ) (i : ℕ) (s : Sys)
    → IsValid (s.pi)
    → (m : ℕ) × Wrote u addr killed (pos_part n - i) i m s (pipewrite u addr killed n i s)
unfolding pipewrite
pipewrite_lem u addr killed n i s v =
    let (m, w) = write_from-Wrote u addr killed (pos_part n - i) i (acquire s) (ground arith) in
    (m, acquire-Wrote u addr killed (pos_part n - i) i m s _ w)

length-bytes_at : (u : User) (addr i n : ℕ) → length (bytes_at u addr i n) ≡ n
length-bytes_at u addr i zero = refl
length-bytes_at u addr i (suc n) = ap suc (length-bytes_at u addr (i + 1) n)

-- A stretch that writes `m` bytes leaves `m` more in the pipe.
pub Wrote-count :
    (u : User) (addr : ℕ) (killed : Bool) (k i m : ℕ) (s : Sys) (out : Outcome × Sys)
    → Wrote u addr killed k i m s out
    → count (out.1.pi) ≡ count (s.pi) + m
Wrote-count u addr killed k i m s out w =
    sym (length-window (out.1.pi.bytes) (out.1.pi.nread) (count (out.1.pi)))
    ∙ ap length w.bytes
    ∙ length-append (contents (s.pi)) (bytes_at u addr i m)
    ∙ ap₂ ◌+◌ (length-window (s.pi.bytes) (s.pi.nread) (count (s.pi))) (length-bytes_at u addr i m)
