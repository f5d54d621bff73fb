-- ===== src/Scull/Pipe/Open.antt =====
-- `scull_p_open` and `scull_p_release`: what an open finds, leaves and forgets.
use linux_device_driver.Common.{
  ℕ, ◌+◌, ◌^◌, ◌≡◌, ◌<◌, refl, Bool, Bool-cases, inl, inr, true, false, none, some, List, [], arith,
  length,
}
use linux_device_driver.Kernel.{Ret, ok, Kernel, Call, Mem, kmalloc, kfree, oops}
use linux_device_driver.Kernel.Ledger.{Balanced}
use linux_device_driver.Scull.Device.{Config}
use linux_device_driver.Scull.Pipe.{
  Pipe, Mode, start, open_pipe, release_pipe, up, down, write_copy, write_count, space_free,
}
use linux_device_driver.Scull.Pipe.Ring.{window, IsRing}

module _ (k : Kernel) (g : Config) (f : Mode) (d : Pipe) (m : Mem) where
  abbrev opened : Ret × Pipe × Mem
  opened = open_pipe k g f false d m

  -- The pipe that an open leaves when the device has the block `b` or takes it now.
  abbrev ready : List ℕ → Pipe
  ready b = up (start g f (record (down d) { buffer = some b }))

  start-IsRing :
      (b : List ℕ)
      → length b ≡ g.p_buffer
      → 0 < g.p_buffer
      → g.p_buffer < 2 ^ 31
      → IsRing (ready b) b
  unfolding start
  start-IsRing b l pos small = record {
    block = refl;
    whole = l;
    end_is = refl;
    int_sized = small;
    rp_in = pos;
    wp_in = pos;
  }

  -- The first open allocates one block of the configured size and leaves an empty, valid pipe
  -- with the semaphore free.
  pub open_fresh :
      d.buffer ≡ none
      → 0 < g.p_buffer
      → g.p_buffer < 2 ^ 31
      → k.grants m.requests ≡ true
      → (opened.0 ≡ ok 0)
        × (IsRing opened.1 (k.junk m.requests g.p_buffer))
        × (window (k.junk m.requests g.p_buffer) opened.1.rp opened.1.wp ≡ [])
        × (opened.1.sem_free ≡ true)
        × (opened.2.allocs ≡ m.allocs + 1)
  unfolding open_pipe start kmalloc
  open_fresh no_block pos small granted =
      simp (no_block, granted)
        (refl, start-IsRing _ (k.length-junk m.requests g.p_buffer) pos small, refl, refl, refl)

  -- An open, not interrupted, of a valid pipe whose block is there empties it: the bytes that
  -- waited are lost, although the block stays and no memory is allocated.
  pub reopen_discards :
      (b : List ℕ)
      → IsRing d b
      → (opened.0 ≡ ok 0)
        × (opened.1.buffer ≡ some b)
        × (window b opened.1.rp opened.1.wp ≡ [])
        × (opened.2 ≡ m)
  unfolding open_pipe start
  reopen_discards b v = simp (v.block) (refl, refl, refl, refl)

  -- With a buffer size raised since the block was allocated, an open lets the pipe run past its
  -- block: a write of more bytes than the block has overruns it.
  pub regrown_overruns :
      (b : List ℕ) (c : Call) (buf : List ℕ)
      → d.buffer ≡ some b
      → g.p_buffer < 2 ^ 31
      → length b < length buf
      → length b + 1 < g.p_buffer
      → write_copy k c buf opened.1 ≡ oops
  unfolding open_pipe start write_copy write_count space_free
  regrown_overruns b c buf e small more grown = simp (e) (ground arith)

-- Of a device that nobody has open and that has no block: an open that is not interrupted and gets
-- its block, and then the release of the same file, succeed and leave the device without a block,
-- the counts at 0 and the allocator's books balanced.
pub open_then_release :
    (k : Kernel) (g : Config) (f : Mode) (async : Bool) (d : Pipe) (m : Mem)
    → d.buffer ≡ none
    → d.nreaders ≡ 0
    → d.nwriters ≡ 0
    → k.grants m.requests ≡ true
    → (let o = open_pipe k g f false d m in
        let r = release_pipe f async o.1 o.2 in
        (r.0 ≡ ok 0)
        × (r.1.buffer ≡ none)
        × (r.1.nreaders ≡ 0)
        × (r.1.nwriters ≡ 0)
        × Balanced m r.2 0 0)
unfolding open_pipe start release_pipe kmalloc kfree
open_then_release k g f async d m no_block no_readers no_writers granted =
    elim (Bool-cases f.reads) [
      | inl r ↦ elim (Bool-cases f.writes) [
        | inl w ↦
            simp (no_block, granted, no_readers, no_writers, r, w)
              (refl, refl, refl, refl, omega arith)
        | inr w ↦
            simp (no_block, granted, no_readers, no_writers, r, w)
              (refl, refl, refl, refl, omega arith)
      ]
      | inr r ↦ elim (Bool-cases f.writes) [
        | inl w ↦
            simp (no_block, granted, no_readers, no_writers, r, w)
              (refl, refl, refl, refl, omega arith)
        | inr w ↦
            simp (no_block, granted, no_readers, no_writers, r, w)
              (refl, refl, refl, refl, omega arith)
      ]
    ]
