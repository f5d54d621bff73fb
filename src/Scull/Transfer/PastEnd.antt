-- ===== src/Scull/Transfer/PastEnd.antt =====
-- `scull_read` behind the end of the file.
use linux_device_driver.Common.{
  ℕ, ◌+◌, ◌-◌, ◌*◌, ◌/◌, ◌^◌, ◌≡◌, ◌≤◌, ◌<◌, sym, ◌∙◌, inl, inr, false, some, arith, length,
}
use linux_device_driver.Kernel.{ok, Kernel, Call, Mem, Holds, Holds-mono}
use linux_device_driver.Kernel.Clash.{none-ne-some, true-ne-false}
use linux_device_driver.Scull.Device.{Dev, int_max, IsValid}
use linux_device_driver.Scull.Device.Locate.{place_of}
use linux_device_driver.Scull.Transfer.{Reply, readable, read}
use linux_device_driver.Scull.Transfer.View.{content}
use linux_device_driver.Scull.Transfer.Read.{FileRead, read_refines}

-- A position behind the end: the count wraps around, and is larger than any quantum.
pub readable_behind :
    (size f_pos count : ℕ)
    → size < f_pos
    → f_pos + count < 2 ^ 63
    → 2 ^ 63 < readable size f_pos count
unfolding readable
readable_behind size f_pos count h hc = ground arith

module _ (k : Kernel) (c : Call) (dev : Dev) (m : Mem) (f_pos count v : ℕ) (valid : IsValid dev)
    (fits : f_pos / (dev.quantum * dev.qset) ≤ int_max) (past : dev.size < f_pos)
    (near : f_pos + count < 2 ^ 63) (int_quantum : dev.quantum ≤ int_max)
    (there : content dev f_pos ≡ some v) (calm : c.interrupted ≡ false) (whole : c.left ≡ 0) where
  -- All that is left of the quantum.
  abbrev rest : ℕ
  rest = dev.quantum - (place_of dev.quantum dev.qset f_pos).q_pos

  overrun :
      (s : Reply)
      → FileRead c dev m f_pos (readable dev.size f_pos count) s
      → (s.ret ≡ ok rest) × (length s.out ≡ rest)
  overrun s f = elim f.outcome [
    | inl (got, ret_is, count_is, length_is, pos_is, bytes) ↦
        let all : got ≡ rest =
          omega (arith, count_is, readable_behind dev.size f_pos count past near) in
        (rw (← all) ret_is, omega (arith, length_is, all))
    | inr (inl (ret_is, out_is, pos_is, missing)) ↦ absurd (none-ne-some v (sym missing ∙ there))
    | inr (inr (e, ret_is, why, out_is, pos_is)) ↦ elim why [
      | inl (_, stop) ↦ absurd (true-ne-false (sym stop ∙ calm))
      | inr (_, fault) ↦ absurd (fault whole)
    ]
  ]

  -- Behind the end of the file, where the quantum at the position was allocated, `scull_read`
  -- returns all that is left of the quantum, however few bytes were asked for.
  pub read_past_end :
      Holds (λ s. (s.ret ≡ ok rest) × (length s.out ≡ rest)) (read k c dev m f_pos count)
  read_past_end =
      Holds-mono _ _ (read k c dev m f_pos count) overrun
        (read_refines k c dev m f_pos count valid fits)
