-- ===== src/Pipe.antt =====
-- kernel/pipe.c: the pipe, a ring of PIPESIZE bytes with two free-running 32-bit counters.
-- A call runs under the pipe's lock from `acquire` until it returns or calls `sleep`, which gives
-- the lock up: one such stretch is a function from state to outcome and state, and a sleeper is
-- resumed by the same function at the index that it had reached. User memory stands for the
-- one-byte `copyin` and `copyout` that the loops make.
pub mod Ring
pub mod Transfer
pub mod Receive
pub mod Close
pub mod Stream
mod Examples
use mit6s.Base.{
  ℕ, zero, suc, ◌+◌, ◌-◌, ◌%◌, List, ◌∷◌, [], Bool, true, false, not, ◌&&◌, ◌||◌, Option, none,
  some, ◌==◌, if◌then◌else◌, ℤ, pos, pos_part, minus_one, u32, u64, update, get_or, set,
}

abbrev pub pipe_size : ℕ
pipe_size = 512

-- The addresses that a process sleeps on: `&pi->nread` and `&pi->nwrite`.
pub data Chan : Type 0 where
  nread_chan nwrite_chan : Chan

-- `struct pipe`, its lock as a flag that says whether it is held.
pub record Pipe : Type 0 where
  pub lock : Bool
  pub bytes : List ℕ
  pub nread : ℕ
  pub nwrite : ℕ
  pub readopen : Bool
  pub writeopen : Bool

-- The pipe, the channels on which `wakeup` has been called (latest first), and whether the
-- pipe's page has gone back to the allocator.
pub record Sys : Type 0 where
  pub pi : Pipe
  pub woken : List Chan
  pub freed : Bool

-- User memory of the running process: which addresses the page table maps, and the bytes there.
pub record User : Type 0 where
  pub mapped : ℕ → Bool
  pub byte : ℕ → ℕ

-- How a stretch under the lock ends: by a return, or asleep on a channel at index `i`.
pub data Outcome : Type 0 where
  returned : ℤ → Outcome
  asleep : Chan → ℕ → Outcome

abbrev pub acquire : Sys → Sys
acquire s = record s { pi = record (s.pi) { lock = true } }

abbrev pub release : Sys → Sys
release s = record s { pi = record (s.pi) { lock = false } }

abbrev pub wakeup : Chan → Sys → Sys
wakeup c s = record s { woken = c ∷ s.woken }

-- `copyin(pagetable, &ch, a, 1)`: the byte, or none for -1.
abbrev pub copyin_byte : User → ℕ → Option ℕ
copyin_byte u a = if u.mapped a then some (u.byte a) else none

-- `copyout(pagetable, a, &ch, 1)`: the changed memory, or none for -1.
abbrev pub copyout_byte : User → ℕ → ℕ → Option User
copyout_byte u a ch = if u.mapped a then some (record u { byte = update u.byte a ch }) else none

-- The fields that `pipealloc` sets in a page from `kalloc`, whose bytes are arbitrary.
pub init_pipe : List ℕ → Pipe
init_pipe junk = record {
  lock = false;
  bytes = junk;
  nread = 0;
  nwrite = 0;
  readopen = true;
  writeopen = true;
}

-- `pi->nwrite == pi->nread + PIPESIZE`, with the sum taken in `uint`.
abbrev pub is_full : Pipe → Bool
is_full p = p.nwrite == u32 (p.nread + pipe_size)

-- `pi->data[pi->nwrite++ % PIPESIZE] = ch`
pub put : ℕ → Pipe → Pipe
put ch p = record p { bytes = set p.bytes (p.nwrite % pipe_size) ch; nwrite = u32 (p.nwrite + 1) }

-- `pi->data[pi->nread++ % PIPESIZE]`, and the pipe after it.
abbrev pub head_byte : Pipe → ℕ
head_byte p = get_or p.bytes (p.nread % pipe_size) 0

pub get : Pipe → Pipe
get p = record p { nread = u32 (p.nread + 1) }

-- The body of the `while` of `pipewrite`: a writer that finds the ring full gives up, or goes to
-- sleep. Either ends the stretch.
pub write_blocked : Bool → ℕ → Sys → Outcome × Sys
write_blocked killed i s =
    if not s.pi.readopen || killed
    then (returned minus_one, release s)
    else (asleep nwrite_chan i, release (wakeup nread_chan s))

-- The `for` of `pipewrite` from index `i`, with `k` rounds left.
pub write_from : User → ℕ → Bool → ℕ → ℕ → Sys → Outcome × Sys
unfolding put write_blocked
write_from u addr killed zero i s = (returned (pos i), release (wakeup nread_chan s))
write_from u addr killed (suc k) i s = elim (is_full s.pi) [
  | true ↦ write_blocked killed i s
  | false ↦ elim (copyin_byte u (u64 (addr + i))) [
    | none ↦ (returned (pos i), release (wakeup nread_chan s))
    | some ch ↦ write_from u addr killed k (i + 1) (record s { pi = put ch (s.pi) })
  ]
]

-- `pipewrite(pi, addr, n)` up to its return or its first sleep, for `i = 0`, and from a sleep at
-- index `i` to the next. `killed` is read anew by each stretch.
pub pipewrite : User → ℕ → Bool → ℤ → ℕ → Sys → Outcome × Sys
unfolding write_from
pipewrite u addr killed n i s = write_from u addr killed (pos_part n - i) i (acquire s)

-- The `for` of `piperead` from index `i`, with `k` rounds left, and what follows it.
pub read_from : ℕ → ℕ → ℕ → User → Sys → Outcome × User × Sys
unfolding get
read_from addr zero i u s = (returned (pos i), u, release (wakeup nwrite_chan s))
read_from addr (suc k) i u s = elim (s.pi.nread == s.pi.nwrite) [
  | true ↦ (returned (pos i), u, release (wakeup nwrite_chan s))
  | false ↦ elim (copyout_byte u (u64 (addr + i)) (head_byte (s.pi))) [
    | none ↦ (returned (pos i), u, release (wakeup nwrite_chan (record s { pi = get (s.pi) })))
    | some u' ↦ read_from addr k (i + 1) u' (record s { pi = get (s.pi) })
  ]
]

-- `piperead(pi, addr, n)` up to its return or its next sleep. The `while` runs again from its
-- test after a sleep, so a sleeper is resumed by the same call.
pub piperead : ℕ → Bool → ℤ → User → Sys → Outcome × User × Sys
unfolding read_from
piperead addr killed n u s =
    let t = acquire s in
    if t.pi.nread == t.pi.nwrite && t.pi.writeopen
    then if killed then (returned minus_one, u, release t) else (asleep nread_chan 0, u, release t)
    else read_from addr (pos_part n) 0 u t

-- `pipeclose(pi, writable)`
pub pipeclose : Bool → Sys → Sys
pipeclose writable s =
    let t = acquire s in
    let v =
      if writable
      then wakeup nread_chan (record t { pi = record (t.pi) { writeopen = false } })
      else wakeup nwrite_chan (record t { pi = record (t.pi) { readopen = false } }) in
    if not v.pi.readopen && not v.pi.writeopen
    then record (release v) { freed = true }
    else release v
