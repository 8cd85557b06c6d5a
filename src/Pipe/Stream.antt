-- ===== src/Pipe/Stream.antt =====
-- Writers, readers and closers of one pipe, interleaved in any order, a stretch at a time.
use mit6s.Base.{
  inl, inr, u64, ℕ, ◌+◌, ◌-◌, ◌^◌, ◌<◌, List, [], ◌∷◌, ◌++◌, ◌≡◌, sym, arith, Bool, true, ℤ, pos,
  negsuc, pos_part, append-nil, append_assoc,
}
use mit6s.Pipe.{Sys, User, Outcome, returned, asleep, pipewrite, piperead, pipeclose}
use mit6s.Pipe.Ring.{count, IsValid, contents}
use mit6s.Pipe.Transfer.{bytes_at, Wrote-count, pipewrite_lem}
use mit6s.Pipe.Receive.{ReadEnd, piperead_lem}

-- A stretch of one process: a call of `pipewrite` or its resumption at index `i`, a call of
-- `piperead` or its resumption, or a `pipeclose`.
pub data Turn : Type 0 where
  write_turn : (u : User) (addr : ℕ) (killed : Bool) (n : ℤ) (i : ℕ) → Turn
  read_turn : (addr : ℕ) (killed : Bool) (n : ℤ) (u : User) → Turn
  close_turn : (writable : Bool) → Turn

pub step : Turn → Sys → Sys
step (write_turn u addr killed n i) s = (pipewrite u addr killed n i s).1
step (read_turn addr killed n u) s = (piperead addr killed n u s).2
step (close_turn writable) s = pipeclose writable s

-- The bytes of user memory that a stretch has read as sent, by how far the pipe has grown.
pub sent : Turn → Sys → List ℕ
unfolding step
sent (write_turn u addr killed n i) s =
    bytes_at u addr i (count (step (write_turn u addr killed n i) s).pi - count (s.pi))
sent _ s = []

-- The bytes that user memory holds at `addr` after a read, as many as the call returns.
abbrev got_bytes : ℕ → Outcome × User × Sys → List ℕ
got_bytes addr (returned (pos m), u, t) = bytes_at u addr 0 m
got_bytes addr (_, u, t) = []

pub received : Turn → Sys → List ℕ
received (read_turn addr killed n u) s = got_bytes addr (piperead addr killed n u s)
received _ s = []

unfoldable pub run : List Turn → Sys → Sys
unfolding step
run [] s = s
run (t ∷ ts) s = run ts (step t s)

unfoldable pub sent_all : List Turn → Sys → List ℕ
unfolding sent step
sent_all [] s = []
sent_all (t ∷ ts) s = sent t s ++ sent_all ts (step t s)

unfoldable pub received_all : List Turn → Sys → List ℕ
unfolding received step
received_all [] s = []
received_all (t ∷ ts) s = received t s ++ received_all ts (step t s)

-- Each of the `n` addresses that a read may write to is mapped, and `n` is an `int`.
abbrev IsMapped : User → ℕ → ℕ → Type 0
IsMapped u addr n = (j : ℕ) → j < n → u.mapped (u64 (addr + j)) ≡ true

abbrev pub Delivers : Turn → Type 0
Delivers (read_turn addr killed n u) = (pos_part n < 2 ^ 31) × IsMapped u addr (pos_part n)
Delivers _ = Unit {0}

abbrev pub AllDeliver : List Turn → Type 0
AllDeliver [] = Unit {0}
AllDeliver (t ∷ ts) = Delivers t × AllDeliver ts

-- What one stretch keeps: the bytes in the pipe and those sent are those received and those left.
abbrev pub Kept : Turn → Sys → Type 0
Kept t s =
    IsValid (step t s).pi × (contents (s.pi) ++ sent t s ≡ received t s ++ contents (step t s).pi)

write-Kept :
    (u : User) (addr : ℕ) (killed : Bool) (n : ℤ) (i : ℕ) (s : Sys)
    → IsValid (s.pi)
    → Kept (write_turn u addr killed n i) s
unfolding step sent received
write-Kept u addr killed n i s v =
    let (m, w) = pipewrite_lem u addr killed n i s v in
    let e : count (pipewrite u addr killed n i s).1.pi - count (s.pi) ≡ m =
      omega (arith, Wrote-count u addr killed (pos_part n - i) i m s _ w) in
    (w.valid, rw e (sym w.bytes))

ReadEnd-Kept :
    (addr : ℕ) (killed : Bool) (n : ℤ) (u : User) (s : Sys) (out : Outcome × User × Sys)
    → IsMapped u addr (pos_part n)
    → IsValid (s.pi)
    → ReadEnd addr killed n u s out
    → IsValid (out.2.pi) × (contents (s.pi) ++ [] ≡ got_bytes addr out ++ contents (out.2.pi))
ReadEnd-Kept addr killed n u s (returned (pos m), u', t) all v (lost, w) = elim (w.stopped) [
  | inl (e, why) ↦ ground (arith, append-nil (contents (s.pi)))
  | inr (one, lt, un) ↦
      let at : u.mapped (u64 (addr + (0 + m))) ≡ true = all (0 + m) (omega arith) in
      absurd (cc (at, un))
]
ReadEnd-Kept addr killed n u s (returned (negsuc d), u', t) all v w =
    ground (arith, append-nil (contents (s.pi)))
ReadEnd-Kept addr killed n u s (asleep c j, u', t) all v w =
    ground (arith, append-nil (contents (s.pi)))

close-Kept : (writable : Bool) (s : Sys) → IsValid (s.pi) → Kept (close_turn writable) s
unfolding step sent received pipeclose
close-Kept writable s v = ground (arith, append-nil (contents (s.pi)))

pub step-Kept : (t : Turn) (s : Sys) → Delivers t → IsValid (s.pi) → Kept t s
unfolding step sent received
step-Kept (write_turn u addr killed n i) s d v = write-Kept u addr killed n i s v
step-Kept (read_turn addr killed n u) s d v =
    ReadEnd-Kept addr killed n u s (piperead addr killed n u s) d.1 v
      (piperead_lem addr killed n u s d.0 v)
step-Kept (close_turn writable) s d v = close-Kept writable s v

-- First in, first out, over every interleaving of stretches of writers, readers and closers, where
-- the `n` bytes at the `addr` of each read are mapped and `n` is an `int`: the bytes in the pipe at the start, followed by those that the
-- writers sent in order, are the bytes that the readers received in order, followed by those
-- still in the pipe. And the pipe stays valid.
pub run_fifo :
    (ts : List Turn) (s : Sys)
    → AllDeliver ts
    → IsValid (s.pi)
    → IsValid (run ts s).pi
      × (contents (s.pi) ++ sent_all ts s ≡ received_all ts s ++ contents (run ts s).pi)
unfolding run sent_all received_all
run_fifo [] s d v = (v, append-nil (contents (s.pi)))
run_fifo (t ∷ ts) s d v =
    let (v', e) = step-Kept t s d.0 v in
    let (v'', e') = run_fifo ts (step t s) d.1 v' in
    (
      v'',
      cc (
        e,
        e',
        append_assoc (contents (s.pi)) (sent t s) (sent_all ts (step t s)),
        append_assoc (received t s) (contents (step t s).pi) (sent_all ts (step t s)),
        append_assoc (received t s) (received_all ts (step t s)) (contents (run ts (step t s)).pi),
      ),
    )
