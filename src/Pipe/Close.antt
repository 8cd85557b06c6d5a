-- ===== src/Pipe/Close.antt =====
-- Closing the two ends of a pipe.
use mit6s.Base.{◌∷◌, ◌≡◌, arith, Bool, true, false, not, if◌then◌else◌}
use mit6s.Pipe.{Sys, nread_chan, nwrite_chan, pipeclose}
use mit6s.Pipe.Ring.{contents}

-- The two closes of a pipe that is open at both ends, in either order: the first does not free
-- the page and the second does; each wakes the processes that wait for the other end; the bytes in
-- the pipe are still there, for the reader, and the lock is released.
pub pipeclose_both :
    (w : Bool) (s : Sys)
    → s.pi.readopen ≡ true
    → s.pi.writeopen ≡ true
    → s.freed ≡ false
    → let t = pipeclose w s in
      let v = pipeclose (not w) t in
      (t.freed ≡ false)
      × (t.pi.readopen ≡ w)
      × (t.pi.writeopen ≡ not w)
      × (contents (t.pi) ≡ contents (s.pi))
      × (t.pi.lock ≡ false)
      × (v.freed ≡ true)
      × (v.pi.lock ≡ false)
      × (v.woken
          ≡ (if w then nwrite_chan ∷ nread_chan ∷ s.woken else nread_chan ∷ nwrite_chan ∷ s.woken))
unfolding pipeclose
pipeclose_both true s r w f = ground arith
pipeclose_both false s r w f = ground arith
