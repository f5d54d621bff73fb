-- ===== src/Usb/Life.antt =====
-- The life of a device that was probed: opens, releases and the disconnect in any order.
use linux_device_driver.Common.{
  ℕ, suc, ◌+◌, ◌^◌, ◌≡◌, ◌<◌, true, false, none, some, if◌then◌else◌, ◌⊎◌,
}
use linux_device_driver.Kernel.{Errno, ok, err, done, Mem}
use linux_device_driver.Kernel.Ledger.{Balanced}
use linux_device_driver.Usb.{Skel, World, skel_open, skel_release, skel_disconnect}

-- The driver's state, and how many open files name the device.
pub record State : Type 0 where
  pub world : World
  pub files : ℕ

-- What the kernel asks of the driver: a release for each open file, and one disconnect of a bound
-- interface. An operation that is not defined has no step, so that `can_step` below says the more.
pub data Step : State → State → Type 0 where
  opened :
      {s : State} (w : World)
      → s.files + 2 < 2 ^ 32
      → skel_open s.world ≡ done (ok 0, w)
      → Step s (record { world = w; files = s.files + 1 })
  refused :
      {s : State} (w : World) (e : Errno)
      → skel_open s.world ≡ done (err e, w)
      → Step s (record s { world = w })
  released :
      {s : State} {n : ℕ} (w : World)
      → s.files ≡ suc n
      → skel_release s.world ≡ done (ok 0, w)
      → Step s (record { world = w; files = n })
  disconnected :
      {s : State} (w : World)
      → s.world.intfdata ≡ true
      → skel_disconnect s.world ≡ done w
      → Step s (record s { world = w })

pub data Reach (first : State) : State → Type 0 where
  here : Reach first first
  next : {s t : State} → Reach first s → Step s t → Reach first t

abbrev pub bound_refs : World → ℕ
bound_refs w = if w.intfdata then 1 else 0

-- While anybody refers to the device the structure is there, counts those that do, and holds two
-- blocks and a reference to the USB device; else it is gone, and so are they.
pub record Alive (first : Mem) (udev : ℕ) (s : State) (d : Skel) : Type 0 where
  pub there : s.world.dev ≡ some d
  pub counted : d.kref ≡ s.files + bound_refs s.world
  pub in_use : 0 < d.kref
  pub word : d.kref < 2 ^ 32
  pub has_buffer : d.bulk_in_buffer ≡ true
  pub held : Balanced first s.world.mem 0 2
  pub udev_held : s.world.udev_refs ≡ udev + 1

pub record Gone (first : Mem) (udev : ℕ) (s : State) : Type 0 where
  pub gone : s.world.dev ≡ none
  pub no_files : s.files ≡ 0
  pub unbound : s.world.intfdata ≡ false
  pub balanced : Balanced first s.world.mem 0 0
  pub udev_back : s.world.udev_refs ≡ udev

abbrev pub Sound : Mem → ℕ → State → Type 0
Sound first udev s =
    (s.world.minor ≡ s.world.intfdata) × (((d : Skel) × Alive first udev s d) ⊎ Gone first udev s)
