-- ===== src/Sbull/Setup.antt =====
-- Setting a RAM disk up and taking it down.
use linux_device_driver.Common.{
  ℕ, ◌≡◌, ◌≢◌, inl, inr, Bool, true, false, arith, refl, Bool-cases, ◌&&◌, none,
}
use linux_device_driver.Kernel.{oops, Kernel, Mem, kmalloc}
use linux_device_driver.Sbull.{Disk, setup_device, exit_device}

module _ (k : Kernel) (size : ℕ) (has_queue has_disk : Bool) (m : Mem) where
  abbrev made : Disk × Mem
  made = setup_device k size has_queue has_disk m

  -- When the contents were allocated but the queue or the disk was not, the set-up frees the
  -- contents and keeps the pointer, and taking the device down frees them again.
  pub failed_setup_frees_twice :
      k.grants m.requests ≡ true
      → (has_queue && has_disk) ≡ false
      → (made.0.contents ≢ none) × (made.0.live ≡ false) × (exit_device made.0 made.1 ≡ oops)
  unfolding setup_device exit_device kmalloc
  failed_setup_frees_twice granted lacks = elim (Bool-cases has_queue) [
    | inl q ↦ elim (Bool-cases has_disk) [
      | inl d ↦ absurd (ground arith)
      | inr d ↦ simp (granted, q, d) ((λ t. ground arith), refl, refl)
    ]
    | inr q ↦ simp (granted, q) ((λ t. ground arith), refl, refl)
  ]
