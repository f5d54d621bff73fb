-- ===== src/Scull/Pipe/Wait.antt =====
-- The waiting loops of the pipe: who sleeps, who returns, and who holds the semaphore then.
use linux_device_driver.Common.{
  ℕ, ◌≡◌, refl, Bool, true, false, not, List, [], ◌∷◌, arith, All, inl, inr, ◌==◌, length, ltb, ◌+◌,
  Option-cases, if◌then◌else◌,
}
use linux_device_driver.Kernel.{err, eagain, Outcome, Kernel, Call, done, oops}
use linux_device_driver.Scull.Pipe.{
  Pipe, Mode, Reply, Wake, Progress, returns, asleep, answer, up, down, space_free, read_copy,
  read_count, read_loop, read_pipe, write_count, write_copy, write_loop, write_pipe,
}

-- The call that wakes up with the semaphore let go by the others.
abbrev pub LetGo : Wake → Type 0
LetGo w = w.pipe.sem_free ≡ true

-- A call that is defined leaves the semaphore free, whether it returned or sleeps.
abbrev pub LeavesFree : Progress → Type 0
LeavesFree (returns (done r)) = r.pipe.sem_free ≡ true
LeavesFree (returns oops) = Unit
LeavesFree (asleep d) = d.sem_free ≡ true

LeavesFree-if :
    (t : Bool) (p q : Progress) → LeavesFree p → LeavesFree q → LeavesFree (if t then p else q)
LeavesFree-if true p q hp hq = hp
LeavesFree-if false p q hp hq = hq

abbrev Settled : Outcome Reply → Type 0
Settled o = LeavesFree (returns o)

Settled-if : (t : Bool) (p q : Outcome Reply) → Settled p → Settled q → Settled (if t then p else q)
Settled-if true p q hp hq = hp
Settled-if false p q hp hq = hq

module _ (f : Mode) (c : Call) (count : ℕ) where
  read_copy-LeavesFree : (d : Pipe) → Settled (read_copy c count d)
  unfolding read_copy
  read_copy-LeavesFree d = elim (Option-cases d.buffer) [
    | inl absent ↦ simp (absent, read_copy) tt
    | inr (b, e) ↦
        simp (e, read_copy)
          (Settled-if (ltb (length b) (d.rp + read_count d count)) _ _ tt
            (Settled-if (c.left == 0) _ _ refl refl))
  ]

  read_loop-LeavesFree :
      (ws : List Wake) (d : Pipe) → All LetGo ws → LeavesFree (read_loop f c count ws d)
  unfolding read_loop
  read_loop-LeavesFree [] d h =
      LeavesFree-if (not (d.rp == d.wp)) _ _ (read_copy-LeavesFree d)
        (LeavesFree-if f.nonblock _ _ refl refl)
  read_loop-LeavesFree (w ∷ ws) d h =
      LeavesFree-if (not (d.rp == d.wp)) _ _ (read_copy-LeavesFree d) (
        LeavesFree-if f.nonblock _ _ refl (
          LeavesFree-if w.signal _ _ h.0
            (LeavesFree-if w.interrupted _ _ h.0 (read_loop-LeavesFree ws (down w.pipe) h.1))))

  -- A read that is defined leaves the semaphore free, whether it returns a count, an error or
  -- sleeps, when it is free at the call and each time the call wakes up.
  pub read_pipe-LeavesFree :
      (ws : List Wake) (d : Pipe)
      → d.sem_free ≡ true
      → All LetGo ws
      → LeavesFree (read_pipe f c count ws d)
  unfolding read_pipe
  read_pipe-LeavesFree ws d free h =
      LeavesFree-if c.interrupted _ _ free (read_loop-LeavesFree ws (down d) h)

  -- A read of an empty pipe whose semaphore is free, through a file opened with O_NONBLOCK and not
  -- interrupted at the semaphore, returns EAGAIN and leaves the pipe as it was, whatever would
  -- have woken it.
  pub read_pipe-nonblock :
      (ws : List Wake) (d : Pipe)
      → f.nonblock ≡ true
      → c.interrupted ≡ false
      → d.rp ≡ d.wp
      → d.sem_free ≡ true
      → read_pipe f c count ws d ≡ returns (done (answer (err eagain) d))
  unfolding read_pipe read_loop
  read_pipe-nonblock [] d n i e free = ground (arith)
  read_pipe-nonblock (w ∷ ws) d n i e free = ground (arith)

module _ (k : Kernel) (f : Mode) (c : Call) (buf : List ℕ) where
  write_copy-LeavesFree : (d : Pipe) → Settled (write_copy k c buf d)
  unfolding write_copy
  write_copy-LeavesFree d = elim (Option-cases d.buffer) [
    | inl absent ↦ simp (absent, write_copy) tt
    | inr (b, e) ↦
        simp (e, write_copy)
          (Settled-if (ltb (length b) (d.wp + write_count d (length buf))) _ _ tt
            (Settled-if (c.left == 0) _ _ refl refl))
  ]

  write_loop-LeavesFree :
      (ws : List Wake) (d : Pipe) → All LetGo ws → LeavesFree (write_loop k c buf ws d)
  unfolding write_loop
  write_loop-LeavesFree [] d h =
      LeavesFree-if (not (space_free d == 0)) _ _ (write_copy-LeavesFree d) refl
  write_loop-LeavesFree (w ∷ ws) d h =
      LeavesFree-if (not (space_free d == 0)) _ _ (write_copy-LeavesFree d) (
        LeavesFree-if w.signal _ _ h.0
          (LeavesFree-if w.interrupted _ _ h.0 (write_loop-LeavesFree ws (down w.pipe) h.1)))

  -- A write that is defined leaves the semaphore free, whether it returns a count, an error or
  -- sleeps, when it is free at the call and each time the call wakes up.
  pub write_pipe-LeavesFree :
      (ws : List Wake) (d : Pipe)
      → d.sem_free ≡ true
      → All LetGo ws
      → LeavesFree (write_pipe k f c buf ws d)
  unfolding write_pipe
  write_pipe-LeavesFree ws d free h =
      LeavesFree-if c.interrupted _ _ free (write_loop-LeavesFree ws (down d) h)

  space_free-down : (d : Pipe) → space_free (down d) ≡ space_free d
  unfolding space_free
  space_free-down d = refl

  -- A write to a full pipe sleeps until another process wakes it, also through a file opened with
  -- O_NONBLOCK.
  pub full_write_sleeps :
      (d : Pipe)
      → c.interrupted ≡ false
      → space_free d ≡ 0
      → write_pipe k f c buf [] d ≡ asleep (up d)
  unfolding write_pipe write_loop
  full_write_sleeps d i e = simp (i, space_free-down d, e) refl
