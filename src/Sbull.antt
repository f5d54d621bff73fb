-- ===== src/Sbull.antt =====
-- The RAM disk, sbull/sbull.c. The kernel's block layer hands over the requests in some order: a
-- queue is the list of what `elv_next_request` returns. A buffer is the bytes of its memory.
pub mod Transfer
pub mod Media
pub mod Setup
mod Tests
use linux_device_driver.Common.{
  ℕ, zero, suc, ◌+◌, ◌-◌, ◌*◌, ◌/◌, ◌%◌, ◌^◌, Bool, true, false, Option, none, some, List, [], ◌∷◌,
  not, ◌&&◌, ◌||◌, if◌then◌else◌, ltb, ◌==◌, length, splice, slice, replicate,
}
use linux_device_driver.Kernel.{
  efault, enotty, Ret, ok, err, Outcome, done, oops, ◌>>=◌, Kernel, Mem, kmalloc, kfree,
}

-- `struct sbull_dev`; `timer` says whether the timer is pending, `queue` and `gd` whether there is
-- a queue and a disk. `contents` is the pointer `data`, and `live` says whether its block is still allocated.
pub record Disk : Type 0 where
  pub size : ℕ
  pub contents : Option (List ℕ)
  pub live : Bool
  pub users : ℕ
  pub media_change : Bool
  pub timer : Bool
  pub queue : Bool
  pub gd : Bool

abbrev pub sector_size : ℕ
sector_size = 512

-- `sbull_transfer`: the contents of the disk and of the buffer afterwards. The `unsigned long`s
-- have 64 bits.
unfoldable pub transfer : ℕ → List ℕ → ℕ → ℕ → List ℕ → Bool → Outcome (List ℕ × List ℕ)
transfer size contents sector nsect buffer write =
    let offset = (sector * sector_size) % 2 ^ 64 in
    let nbytes = (nsect * sector_size) % 2 ^ 64 in
    if ltb size ((offset + nbytes) % 2 ^ 64)
    then done (contents, buffer)
    else if ltb (length contents) (offset + nbytes) || ltb (length buffer) nbytes
    then oops
    else if write
    then done (splice contents offset (slice buffer 0 nbytes), buffer)
    else done (contents, splice buffer 0 (slice contents offset nbytes))

-- What `elv_next_request` returns to `sbull_request`, and how `end_request` is called for it.
pub record Request : Type 0 where
  pub is_fs : Bool
  pub sector : ℕ
  pub nr_sectors : ℕ
  pub buffer : List ℕ
  pub write : Bool

pub record Ended : Type 0 where
  pub uptodate : Bool
  pub buffer : List ℕ

-- `sbull_request`.
unfoldable pub serve_requests : ℕ → List Request → List ℕ → Outcome (List ℕ × List Ended)
serve_requests size [] contents = done (contents, [])
serve_requests size (q ∷ qs) contents =
    if not q.is_fs
    then (do
      rest ← serve_requests size qs contents
      done (rest.0, record { uptodate = false; buffer = q.buffer } ∷ rest.1))
    else (do
      t ← transfer size contents q.sector q.nr_sectors q.buffer q.write
      rest ← serve_requests size qs t.0
      done (rest.0, record { uptodate = true; buffer = t.1 } ∷ rest.1))

-- A `struct bio`: `cur_sectors` is what `bio_cur_sectors` answers while its segments are visited.
pub record Bio : Type 0 where
  pub sector : ℕ
  pub cur_sectors : ℕ
  pub bi_size : ℕ
  pub segments : List (List ℕ)
  pub write : Bool

-- The loop of `sbull_xfer_bio`: the contents, and the segments afterwards.
unfoldable pub xfer_segments :
    ℕ → List ℕ → ℕ → ℕ → List (List ℕ) → Bool → Outcome (List ℕ × List (List ℕ))
xfer_segments size contents sector cur [] write = done (contents, [])
xfer_segments size contents sector cur (s ∷ ss) write = do
  t ← transfer size contents sector cur s write
  rest ← xfer_segments size t.0 (sector + cur) cur ss write
  done (rest.0, t.1 ∷ rest.1)

unfoldable pub xfer_bio : ℕ → List ℕ → Bio → Outcome (List ℕ × Bio)
xfer_bio size contents b = do
  t ← xfer_segments size contents b.sector b.cur_sectors b.segments b.write
  done (t.0, record b { segments = t.1 })

-- `sbull_xfer_request`, with the count of sectors that it returns.
unfoldable pub xfer_request : ℕ → List ℕ → List Bio → Outcome (List ℕ × List Bio × ℕ)
xfer_request size contents [] = done (contents, [], 0)
xfer_request size contents (b ∷ bs) = do
  t ← xfer_bio size contents b
  rest ← xfer_request size t.0 bs
  done (rest.0, t.1 ∷ rest.1, b.bi_size / sector_size + rest.2)

-- `sbull_make_request`: the bio goes back with all of its bytes and no error.
unfoldable pub make_request : ℕ → List ℕ → Bio → Outcome (List ℕ × Bio × ℕ)
make_request size contents b = do t ← xfer_bio size contents b; done (t.0, t.1, b.bi_size)

-- A `short` wraps.
abbrev pub short_inc : ℕ → ℕ
short_inc n = (n + 1) % 2 ^ 16

abbrev pub short_dec : ℕ → ℕ
short_dec n = (n + (2 ^ 16 - 1)) % 2 ^ 16

unfoldable pub media_changed : Disk → Bool
media_changed d = d.media_change

-- `memset` of the whole contents.
unfoldable pub revalidate : Disk → Disk
revalidate d =
    if d.media_change
    then record d {
      media_change = false;
      contents = elim d.contents [ none ↦ none | some b ↦ some (replicate (length b) 0) ];
    }
    else d

-- `check` is the kernel's `check_disk_change`.
unfoldable pub open_disk : (Disk → Disk) → Disk → Disk
open_disk check d =
    let quiet = record d { timer = false } in
    let checked = if d.users == 0 then check quiet else quiet in
    record checked { users = short_inc checked.users }

unfoldable pub release_disk : Disk → Disk
release_disk d =
    let users = short_dec d.users in
    if users == 0 then record d { users = users; timer = true } else record d { users = users }

-- `sbull_invalidate`, when the timer expires.
unfoldable pub invalidate : Disk → Disk
invalidate d =
    let fired = record d { timer = false } in
    elim d.contents [
      | none ↦ fired
      | some b ↦ if not (d.users == 0) then fired else record fired { media_change = true }
    ]

-- `struct hd_geometry`, but for the start.
pub record Geometry : Type 0 where
  pub cylinders : ℕ
  pub heads : ℕ
  pub sectors : ℕ

-- `HDIO_GETGEO` of `sbull_ioctl`. `size & ~0x3f`, shifted by 6, is the division; the field of the
-- cylinders is an `unsigned short`.
unfoldable pub get_geometry : (hardsect_size : ℕ) → Disk → Geometry
get_geometry hardsect_size d =
    let size = d.size * (hardsect_size / sector_size) in
    record { cylinders = (size / 64) % 2 ^ 16; heads = 4; sectors = 16 }

-- `left` is what `copy_to_user` leaves uncopied.
unfoldable pub ioctl_disk : ℕ → (is_getgeo : Bool) → (left : ℕ) → Disk → Ret × Option Geometry
ioctl_disk hardsect_size is_getgeo left d =
    if is_getgeo
    then (if left == 0 then (ok 0, some (get_geometry hardsect_size d)) else (err efault, none))
    else (err enotty, none)

-- A device after `memset`.
abbrev pub blank : ℕ → Disk
blank size = record {
  size = size;
  contents = none;
  live = false;
  users = 0;
  media_change = false;
  timer = false;
  queue = false;
  gd = false;
}

-- `vfree` of the contents at the label `out_vfree`: the pointer stays.
abbrev pub out_vfree : Disk × Mem → Disk × Mem
out_vfree (d, m) = (record d { live = false }, kfree m)

-- `setup_device`; `has_queue` and `has_disk` say whether the block layer gives a queue and a disk.
unfoldable pub setup_device : Kernel → ℕ → Bool → Bool → Mem → Disk × Mem
setup_device k size has_queue has_disk m =
    let (granted, m') = kmalloc k m in
    if not granted
    then (blank size, m')
    else let d = record (blank size) { contents = some (k.junk m.requests size); live = true } in
      if not has_queue
      then out_vfree (d, m')
      else if not has_disk
      then out_vfree (record d { queue = true }, m')
      else (record d { queue = true; gd = true }, m')

-- The loop body of `sbull_exit`. To free a block that is free already is undefined.
unfoldable pub exit_device : Disk → Mem → Outcome (Disk × Mem)
exit_device d m = elim d.contents [
  | none ↦ done (record d { timer = false; queue = false; gd = false }, m)
  | some b ↦
      if d.live
      then done (record d { timer = false; queue = false; gd = false; live = false }, kfree m)
      else oops
]
