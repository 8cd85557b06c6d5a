-- ===== src/Proc/State.antt =====
-- The process table of kernel/proc.c: `struct proc` of kernel/proc.h, and the stores, locks and calls that
-- the operations are made of.
use mit6s.Base.{ℕ, Bool, true, false, Option, List, ◌∷◌, ◌==◌, update}

abbrev pub nproc : ℕ
nproc = 64

abbrev pub nofile : ℕ
nofile = 16

abbrev pub pgsize : ℕ
pgsize = 4096

-- `enum procstate`
pub data ProcState : Type 0 where
  unused sleeping runnable running zombie : ProcState

abbrev pub is : ProcState → ProcState → Bool
is unused unused = true
is sleeping sleeping = true
is runnable runnable = true
is running running = true
is zombie zombie = true
is _ _ = false

-- What a process sleeps on: nothing, a process (in `wait`), or another address.
pub data Chan : Type 0 where
  no_chan : Chan
  proc_chan : ℕ → Chan
  addr_chan : ℕ → Chan

abbrev pub same_chan : Chan → Chan → Bool
same_chan no_chan no_chan = true
same_chan (proc_chan i) (proc_chan j) = i == j
same_chan (addr_chan a) (addr_chan b) = a == b
same_chan _ _ = false

-- The registers of `struct trapframe` that the code names, and the rest.
pub record Frame : Type 0 where
  pub epc : ℕ
  pub sp : ℕ
  pub a0 : ℕ
  pub rest : ℕ → ℕ

-- `struct proc`
pub record Proc : Type 0 where
  pub lock : Bool
  pub state : ProcState
  pub parent : Option ℕ
  pub chan : Chan
  pub killed : Bool
  pub xstate : ℕ
  pub pid : ℕ
  pub kstack : ℕ
  pub sz : ℕ
  pub pagetable : Option ℕ
  pub trapframe : Option ℕ
  pub frame : Frame
  pub context_ra : ℕ
  pub context_sp : ℕ
  pub ofile : ℕ → Option ℕ
  pub cwd : Option ℕ
  pub name : List ℕ

-- The calls that leave the process table.
pub data Call : Type 0 where
  kfree : ℕ → Call
  proc_freepagetable : ℕ → ℕ → Call
  filedup : ℕ → Call
  fileclose : ℕ → Call
  idup : Option ℕ → Call
  iput : Option ℕ → Call
  begin_op : Call
  end_op : Call
  copyout : ℕ → ℕ → Call

pub record Table : Type 0 where
  pub procs : ℕ → Proc
  pub nextpid : ℕ
  pub initproc : ℕ
  pub calls : List Call

abbrev pub get : ℕ → Table → Proc
get i s = s.procs i

abbrev pub put : ℕ → Proc → Table → Table
put i p s = record s { procs = update s.procs i p }

abbrev pub call : Call → Table → Table
call c s = record s { calls = c ∷ s.calls }

abbrev pub locked : Proc → Proc
locked p = record p { lock = true }

abbrev pub unlocked : Proc → Proc
unlocked p = record p { lock = false }

-- `acquire(&p->lock)` and `release(&p->lock)`
abbrev pub acquire : ℕ → Table → Table
acquire i s = put i (locked (get i s)) s

abbrev pub release : ℕ → Table → Table
release i s = put i (unlocked (get i s)) s
