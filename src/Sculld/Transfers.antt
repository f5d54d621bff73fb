-- ===== src/Sculld/Transfers.antt =====
-- `sculld_read` and `sculld_write` as the transfers of scull/main.c, and what they promise thereby.
use linux_device_driver.Common.{
  ℕ, ◌+◌, ◌*◌, ◌/◌, ◌^◌, ◌≡◌, ◌≤◌, ◌<◌, ◌⊎◌, inl, inr, refl, ap, arith, false, List, length, take,
  Bool-cases, div_lt_of_lt_mul, Option, none, some,
}
use linux_device_driver.Kernel.{ok, done, oops, Kernel, Call, Mem, Holds, kmalloc}
use linux_device_driver.Kernel.Ledger.{Refused}
use linux_device_driver.Kernel.Clash.{Outcome-cases}
use linux_device_driver.Scull.Device.{Place, Quantum, int_max, locate, IsValid}
use linux_device_driver.Scull.Device.Locate.{located}
use linux_device_driver.Scull.Transfer.{readable, clip, claim_quantum}
use linux_device_driver.Chain.{Reply, read_at, write_at}
use linux_device_driver.Chain.AsScull.{
  zeroing, as_scull, run_as_scull, asked-readable, read_at-as_scull, write_at-as_scull,
}
use linux_device_driver.Chain.Transfers.{Kept, run-Kept, run_part, run_read_back}
use linux_device_driver.Sculld.{Dev, item_order, quantum_of, read, get_pages, write}

module _ (page : ℕ) where
  -- The quanta are single pages, or the position lies in the first item.
  abbrev pub Ordered : Dev → ℕ → Type 0
  Ordered dev f_pos = (dev.order ≡ 0) ⊎ (f_pos < quantum_of page dev * dev.store.qset)

  -- The item of a position has the device's order: all do, or the position lies in the first.
  item_order-located :
      (dev : Dev) (f_pos : ℕ)
      → Ordered dev f_pos
      → (p : Place) → locate (quantum_of page dev) dev.store.qset f_pos ≡ done p
      → item_order dev p.item ≡ dev.order
  item_order-located dev f_pos (inl single) p e = ground (arith, single)
  item_order-located dev f_pos (inr first) p e =
      let size = quantum_of page dev * dev.store.qset in
      let none_before : f_pos / size < 1 = div_lt_of_lt_mul f_pos size 1 (omega (arith, first)) in
      let found = located (quantum_of page dev) dev.store.qset f_pos p e in
      let item_zero : p.item ≡ 0 = omega (arith, none_before, ap (λ (r : Place). r.item) found.0) in
      rw item_zero refl

  get_pages-claim :
      (k : Kernel) (order : ℕ) (slot : Option Quantum) (m : Mem)
      → get_pages page k order slot m ≡ done (claim_quantum (zeroing k) (page * 2 ^ order) slot m)
  unfolding get_pages claim_quantum kmalloc
  get_pages-claim k order none m = refl
  get_pages-claim k order (some b) m = refl

  -- A read of a sculld device returns, delivers and leaves what `scull_read` does on the device
  -- seen as a scull device; but where a request for memory is refused it may be undefined.
  pub sculld_read-as_scull :
      (k : Kernel) (c : Call) (dev : Dev) (m : Mem) (f_pos count : ℕ)
      → f_pos < 2 ^ 64
      → count < 2 ^ 64
      → let quantum = quantum_of page dev in
        (run_as_scull quantum (read page k c dev m f_pos count)
          ≡ linux_device_driver.Scull.Transfer.read
              (zeroing k)
              c
              (as_scull quantum dev.store)
              m
              f_pos
              count)
        ⊎ ((read page k c dev m f_pos count ≡ oops) × Refused k)
  unfolding read linux_device_driver.Scull.Transfer.read
  sculld_read-as_scull k c dev m f_pos count hf hc =
      let quantum = quantum_of page dev in
      elim (Bool-cases c.interrupted) [
        | inl stop ↦ inl (simp stop refl)
        | inr go ↦ elim (Outcome-cases (locate quantum dev.store.qset f_pos)) [
          | inl lost ↦ inl (simp go (rw lost refl))
          | inr (p, found) ↦
              let here : read page k c dev m f_pos count
                  ≡ read_at k quantum c dev.store m f_pos p (readable dev.store.size f_pos count) =
                simp go (rw (found, asked-readable dev.store.size f_pos count hf hc) refl) in
              rw here (read_at-as_scull quantum k c dev.store m f_pos count p go found)
        ]
      ]

  -- A write to a sculld device whose quanta are single pages, or to its first item, returns and
  -- leaves what `scull_write` does on the device seen as a scull device, with new quanta cleared;
  -- but where a request for memory is refused it may be undefined.
  pub sculld_write-as_scull :
      (k : Kernel) (c : Call) (dev : Dev) (m : Mem) (f_pos : ℕ) (buf : List ℕ)
      → Ordered dev f_pos
      → let quantum = quantum_of page dev in
        (run_as_scull quantum (write page k c dev m f_pos buf)
          ≡ linux_device_driver.Scull.Transfer.write
              (zeroing k)
              c
              (as_scull quantum dev.store)
              m
              f_pos
              buf)
        ⊎ ((write page k c dev m f_pos buf ≡ oops) × Refused k)
  unfolding write linux_device_driver.Scull.Transfer.write
  sculld_write-as_scull k c dev m f_pos buf ordered =
      let quantum = quantum_of page dev in
      elim (Bool-cases c.interrupted) [
        | inl stop ↦ inl (simp stop refl)
        | inr go ↦ elim (Outcome-cases (locate quantum dev.store.qset f_pos)) [
          | inl lost ↦ inl (simp go (rw lost refl))
          | inr (p, found) ↦
              let n = clip quantum p.q_pos (length buf) in
              let pages = get_pages page k (item_order dev p.item) in
              let here : write page k c dev m f_pos buf
                  ≡ write_at k pages n c dev.store m f_pos p buf =
                simp go (rw found refl) in
              let allocates : (slot : Option Quantum) (m' : Mem)
                  → pages slot m' ≡ done (claim_quantum (zeroing k) quantum slot m') =
                λ slot m'.
                  rw (item_order-located dev f_pos ordered p found)
                    (get_pages-claim k dev.order slot m') in
              rw here (
                write_at-as_scull quantum k pages n c buf f_pos p allocates refl dev.store m go
                  found)
        ]
      ]

  -- A write to a valid device whose quanta are single pages, or to its first item, keeps the device
  -- valid and its blocks accounted for; it is undefined only where a request for memory is refused.
  pub write_safe :
      (k : Kernel) (c : Call) (dev : Dev) (m : Mem) (f_pos : ℕ) (buf : List ℕ)
      → let quantum = quantum_of page dev in
        IsValid (as_scull quantum dev.store)
        → Ordered dev f_pos
        → f_pos / (quantum * dev.store.qset) ≤ int_max
        → Holds (Kept quantum dev.store m) (write page k c dev m f_pos buf)
          ⊎ ((write page k c dev m f_pos buf ≡ oops) × Refused k)
  write_safe k c dev m f_pos buf valid ordered fits =
      elim (sculld_write-as_scull k c dev m f_pos buf ordered) [
        | inr refused ↦ inr refused
        | inl same ↦ inl (
            run-Kept (quantum_of page dev) (zeroing k) c dev.store m f_pos buf
              (write page k c dev m f_pos buf) valid fits same)
      ]

  -- What a successful write of single pages, or to the first item, stored, a read of as many bytes
  -- at the same position returns, if no signal and no fault of the user's memory stops it, and
  -- unless a request for memory is refused.
  pub read_after_write :
      (k : Kernel) (c c' : Call) (dev : Dev) (m : Mem) (f_pos : ℕ) (buf : List ℕ) (r : Reply)
      (n : ℕ)
      → let quantum = quantum_of page dev in
        IsValid (as_scull quantum dev.store)
        → Ordered dev f_pos
        → f_pos / (quantum * dev.store.qset) ≤ int_max
        → dev.store.size < 2 ^ 64
        → f_pos + length buf < 2 ^ 64
        → write page k c dev m f_pos buf ≡ done r
        → r.ret ≡ ok n
        → c'.interrupted ≡ false
        → c'.left ≡ 0
        → Holds
            (λ t. (t.ret ≡ ok n) × (t.out ≡ take n buf))
            (read page k c' (record dev { store = r.store }) r.mem f_pos n)
          ⊎ Refused k
  read_after_write k c c' dev m f_pos buf r n valid ordered fits small near written success calm
        whole =
      let quantum = quantum_of page dev in
      let run = write page k c dev m f_pos buf in
      elim (sculld_write-as_scull k c dev m f_pos buf ordered) [
        | inr (undefined, refused) ↦ inr refused
        | inl same ↦
            let part =
              run_part quantum (zeroing k) c dev.store m f_pos buf run valid fits same r n written
                success in
            elim (sculld_read-as_scull k c' (record dev { store = r.store }) r.mem f_pos n
              (omega (arith, near)) (omega (arith, near, part))) [
                | inr (undefined, refused) ↦ inr refused
                | inl same' ↦ inl (
                    run_read_back quantum (zeroing k) c dev.store m f_pos buf run valid fits same r
                      n written success c'
                      (read page k c' (record dev { store = r.store }) r.mem f_pos n) small near
                      calm whole same')
              ]
      ]
