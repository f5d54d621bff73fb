-- ===== src/Scull/Pipe.antt =====
-- The pipe device, scull/pipe.c. Pointers into the buffer are offsets from its start. A handler
-- returns the device and what it did; the semaphore is a field that `down` and `up` set.
pub mod Ring
pub mod Write
pub mod Read
pub mod Open
pub mod Wait
use linux_device_driver.Common.{
  ℕ, ◌+◌, ◌-◌, ◌%◌, ◌^◌, Bool, true, false, Option, none, some, List, [], ◌∷◌, not, if◌then◌else◌,
  ltb, leb, ◌==◌, length, take, splice, slice, min,
}
use linux_device_driver.Kernel.{
  erestartsys, efault, enomem, eagain, Ret, ok, err, Outcome, done, oops, Kernel, Call, Mem,
  kmalloc, kfree,
}
use linux_device_driver.Scull.Device.{Config}

-- `struct scull_pipe`. `buffer` is the block that the pointer names.
pub record Pipe : Type 0 where
  pub buffer : Option (List ℕ)
  pub end : ℕ
  pub buffersize : ℕ
  pub rp : ℕ
  pub wp : ℕ
  pub nreaders : ℕ
  pub nwriters : ℕ
  pub async : Bool
  pub sem_free : Bool

-- What a file was opened for: FMODE_READ, FMODE_WRITE and O_NONBLOCK.
pub record Mode : Type 0 where
  pub reads : Bool
  pub writes : Bool
  pub nonblock : Bool

-- The result, the bytes delivered, the device, and whom the call woke: the processes that wait
-- for space, those that wait for data, and the asynchronous readers.
pub record Reply : Type 0 where
  pub ret : Ret
  pub out : List ℕ
  pub pipe : Pipe
  pub woke_writers : Bool
  pub woke_readers : Bool
  pub signalled : Bool

abbrev pub down : Pipe → Pipe
down d = record d { sem_free = false }

abbrev pub up : Pipe → Pipe
up d = record d { sem_free = true }

abbrev pub answer : Ret → Pipe → Reply
answer r d = record {
  ret = r;
  out = [];
  pipe = d;
  woke_writers = false;
  woke_readers = false;
  signalled = false;
}

-- `int` counters wrap.
abbrev pub int_inc : ℕ → ℕ
int_inc n = (n + 1) % 2 ^ 32

abbrev pub int_dec : ℕ → ℕ
int_dec n = (n + (2 ^ 32 - 1)) % 2 ^ 32

-- The fields that every open sets, whoever has the device open already.
unfoldable pub start : Config → Mode → Pipe → Pipe
start g f d = record d {
  buffersize = g.p_buffer;
  end = g.p_buffer;
  rp = 0;
  wp = 0;
  nreaders = if f.reads then int_inc d.nreaders else d.nreaders;
  nwriters = if f.writes then int_inc d.nwriters else d.nwriters;
}

-- `scull_p_open`; `interrupted` is the answer of `down_interruptible`.
unfoldable pub open_pipe : Kernel → Config → Mode → Bool → Pipe → Mem → Ret × Pipe × Mem
open_pipe k g f interrupted d m = if interrupted then (err erestartsys, d, m) else elim d.buffer [
  | some b ↦ (ok 0, up (start g f (down d)), m)
  | none ↦
      let (granted, m') = kmalloc k m in
      if granted
      then (
        ok 0,
        up (start g f (record (down d) { buffer = some (k.junk m.requests g.p_buffer) })),
        m',
      )
      else (err enomem, up (down d), m')
]

-- `scull_p_release`; `async` says whether other files stay in the queue of asynchronous readers.
unfoldable pub release_pipe : Mode → Bool → Pipe → Mem → Ret × Pipe × Mem
release_pipe f async d m =
    let nr = if f.reads then int_dec d.nreaders else d.nreaders in
    let nw = if f.writes then int_dec d.nwriters else d.nwriters in
    let d' = record d { async = async; nreaders = nr; nwriters = nw } in
    if (nr + nw) % 2 ^ 32 == 0
    then (
      ok 0,
      up (record (down d') { buffer = none }),
      elim d'.buffer [ none ↦ m | some b ↦ kfree m ],
    )
    else (ok 0, up (down d'), m)

-- `spacefree`, as the 64-bit pattern that `(size_t)` makes of the `int`.
unfoldable pub space_free : Pipe → ℕ
space_free d =
    if d.rp == d.wp
    then (d.buffersize + (2 ^ 64 - 1)) % 2 ^ 64
    else ((d.rp + d.buffersize - d.wp) % d.buffersize + (2 ^ 64 - 1)) % 2 ^ 64

-- How many bytes `scull_p_read` moves. Behind a write pointer that went round, the count is cut
-- to `end - wp`, as the source has it.
unfoldable pub read_count : Pipe → ℕ → ℕ
read_count d count = if ltb d.rp d.wp then min count (d.wp - d.rp) else min count (d.end - d.wp)

abbrev pub wrap : ℕ → ℕ → ℕ
wrap end p = if p == end then 0 else p

-- From the copy on, with the semaphore held and data in the buffer.
unfoldable pub read_copy : Call → ℕ → Pipe → Outcome Reply
read_copy c count d =
    let n = read_count d count in
    elim d.buffer [
      | none ↦ oops
      | some b ↦
          if ltb (length b) (d.rp + n)
          then oops
          else if c.left == 0
          then done (record (answer (ok n) (up (record d { rp = wrap d.end (d.rp + n) }))) {
            out = slice b d.rp n;
            woke_writers = true;
          })
          else done (answer (err efault) (up d))
    ]

-- A process that slept and was woken: by a signal or not, whether it then got the semaphore, and
-- the device as other processes had left it.
pub record Wake : Type 0 where
  pub signal : Bool
  pub interrupted : Bool
  pub pipe : Pipe

-- A call returns, or it still sleeps when the wake-ups are used up.
pub data Progress : Type 0 where
  returns : Outcome Reply → Progress
  asleep : Pipe → Progress

-- The waiting loop of `scull_p_read`, with the semaphore held at its head.
unfoldable pub read_loop : Mode → Call → ℕ → List Wake → Pipe → Progress
read_loop f c count [] d =
    if not (d.rp == d.wp)
    then returns (read_copy c count d)
    else if f.nonblock
    then returns (done (answer (err eagain) (up d)))
    else asleep (up d)
read_loop f c count (w ∷ ws) d =
    let rest = read_loop f c count ws (down w.pipe) in
    if not (d.rp == d.wp)
    then returns (read_copy c count d)
    else if f.nonblock
    then returns (done (answer (err eagain) (up d)))
    else if w.signal
    then returns (done (answer (err erestartsys) w.pipe))
    else if w.interrupted
    then returns (done (answer (err erestartsys) w.pipe))
    else rest

unfoldable pub read_pipe : Mode → Call → ℕ → List Wake → Pipe → Progress
read_pipe f c count ws d =
    if c.interrupted
    then returns (done (answer (err erestartsys) d))
    else read_loop f c count ws (down d)

unfoldable pub write_count : Pipe → ℕ → ℕ
write_count d count =
    let room = min count (space_free d) in
    if leb d.rp d.wp then min room (d.end - d.wp) else min room (d.rp - d.wp - 1)

-- From the copy on, with the semaphore held and space in the buffer.
unfoldable pub write_copy : Kernel → Call → List ℕ → Pipe → Outcome Reply
write_copy k c buf d =
    let n = write_count d (length buf) in
    elim d.buffer [
      | none ↦ oops
      | some b ↦
          let b' = splice b d.wp (k.copied c.left (take n buf)) in
          if ltb (length b) (d.wp + n)
          then oops
          else if c.left == 0
          then done
              (record (answer (ok n)
                (up (record d { buffer = some b'; wp = wrap d.end (d.wp + n) }))) {
                  woke_readers = true;
                  signalled = d.async;
                })
          else done (answer (err efault) (up (record d { buffer = some b' })))
    ]

-- `scull_getwritespace` and what follows it: no look at O_NONBLOCK.
unfoldable pub write_loop : Kernel → Call → List ℕ → List Wake → Pipe → Progress
write_loop k c buf [] d =
    if not (space_free d == 0) then returns (write_copy k c buf d) else asleep (up d)
write_loop k c buf (w ∷ ws) d =
    let rest = write_loop k c buf ws (down w.pipe) in
    if not (space_free d == 0)
    then returns (write_copy k c buf d)
    else if w.signal
    then returns (done (answer (err erestartsys) w.pipe))
    else if w.interrupted
    then returns (done (answer (err erestartsys) w.pipe))
    else rest

unfoldable pub write_pipe : Kernel → Mode → Call → List ℕ → List Wake → Pipe → Progress
write_pipe k f c buf ws d =
    if c.interrupted
    then returns (done (answer (err erestartsys) d))
    else write_loop k c buf ws (down d)

-- `scull_p_poll`: POLLIN with POLLRDNORM, and POLLOUT with POLLWRNORM.
unfoldable pub poll : Pipe → Bool × Bool
poll d = (not (d.rp == d.wp), not (space_free d == 0))
