-- ===== src/Sbull/Tests.antt =====
-- The RAM disk at concrete requests.
use linux_device_driver.Common.{
  ◌*◌, ◌≡◌, refl, true, false, some, [], ◌∷◌, arith, List, ℕ, replicate, length, splice,
  if◌then◌else◌, length-replicate,
}
use linux_device_driver.Kernel.{done}
use linux_device_driver.Sbull.{
  Disk, xfer_segments, media_changed, revalidate, open_disk, release_disk, blank,
}
use linux_device_driver.Sbull.Transfer.{xfer_segments-flat, concat}
use linux_device_driver.Sbull.Media.{used_disk_undisturbed, here, next, opens, closes}

abbrev sectors : ℕ → ℕ → List ℕ
sectors n b = replicate (n * 512) b

length-sectors : (n b : ℕ) → length (sectors n b) ≡ n * 512
length-sectors n b = length-replicate (n * 512) b

abbrev contents : List ℕ
contents = sectors 4 0

abbrev segments : List (List ℕ)
segments = sectors 1 5 ∷ sectors 1 6 ∷ []

xfer_segments-flat_example :
    xfer_segments 2048 contents 1 1 segments true
    ≡ done (splice contents (1 * 512) (concat segments), segments)
xfer_segments-flat_example =
    xfer_segments-flat 2048 1 1 contents segments (length-sectors 4 0) (omega arith)
      (length-sectors 1 5, (length-sectors 1 6, tt)) (omega arith)

abbrev check : Disk → Disk
check d = if media_changed d then revalidate d else d

abbrev idle : Disk
idle = record (blank 2048) { contents = some (1 ∷ 2 ∷ []); live = true; queue = true; gd = true }

abbrev in_use : Disk
in_use = open_disk check idle

one_user : in_use.users ≡ 1
unfolding open_disk media_changed
one_user = refl

used_disk_undisturbed_example :
    (in_use.timer ≡ false)
    × (in_use.media_change ≡ false)
    × ((release_disk in_use).contents ≡ in_use.contents)
used_disk_undisturbed_example =
    used_disk_undisturbed check (λ d. refl) (next (here refl) (opens (omega arith)))
      (omega (arith, one_user)) (closes (omega (arith, one_user)))
