-- ===== src/Chain/Transfers.antt =====
-- What a transfer on a list of devices promises once it is one of scull/main.c.
use linux_device_driver.Common.{
  ℕ, ◌+◌, ◌*◌, ◌/◌, ◌^◌, ◌≡◌, ◌≤◌, ◌<◌, inl, inr, sym, ap, ◌∙◌, arith, false, List, length, take,
}
use linux_device_driver.Kernel.{ok, Outcome, done, oops, Kernel, Call, Mem, Holds, Holds-done}
use linux_device_driver.Kernel.Ledger.{Balanced}
use linux_device_driver.Kernel.Clash.{ok-ne-err, ok_injective}
use linux_device_driver.Scull.Device.{int_max, blocks, IsValid}
use linux_device_driver.Scull.Transfer.Write.Flat.{FileWrite, chunk, write_refines, write-IsValid}
use linux_device_driver.Scull.Transfer.RoundTrip.{write_then_read}
use linux_device_driver.Chain.{Store, Reply, held}
use linux_device_driver.Chain.AsScull.{as_scull, reply_as_scull, run_as_scull}

written_part :
    (k : Kernel) (c : Call) (dev : linux_device_driver.Scull.Device.Dev) (m : Mem) (f_pos : ℕ)
    (buf : List ℕ) (r : linux_device_driver.Scull.Transfer.Reply) (n : ℕ)
    → IsValid dev
    → f_pos / (dev.quantum * dev.qset) ≤ int_max
    → linux_device_driver.Scull.Transfer.write k c dev m f_pos buf ≡ done r
    → r.ret ≡ ok n
    → n ≡ chunk dev f_pos (length buf)
written_part k c dev m f_pos buf r n valid fits written success =
    let wrote =
      Holds-done (FileWrite k c dev f_pos buf)
        (linux_device_driver.Scull.Transfer.write k c dev m f_pos buf)
        (write_refines k c dev m f_pos buf valid fits) written in
    elim wrote.outcome [
      | inl w ↦ ok_injective (sym success ∙ w.0)
      | inr failed ↦ absurd (ok-ne-err (sym success ∙ failed.1))
    ]

module _ (quantum : ℕ) where
  Holds-as_scull :
      (P : linux_device_driver.Scull.Transfer.Reply → Type 0) (o : Outcome Reply)
      → Holds P (run_as_scull quantum o)
      → Holds (λ r. P (reply_as_scull quantum r)) o
  Holds-as_scull P (done r) h = h
  Holds-as_scull P oops h = h

  -- What a write leaves: a valid device, and its blocks accounted for.
  abbrev pub Kept : Store → Mem → Reply → Type 0
  Kept s m r = IsValid (as_scull quantum r.store) × Balanced m r.mem (held s) (held r.store)

  module _ (k : Kernel) (c : Call) (s : Store) (m : Mem) (f_pos : ℕ) (buf : List ℕ)
      (run : Outcome Reply) (valid : IsValid (as_scull quantum s))
      (fits : f_pos / (quantum * s.qset) ≤ int_max)
      (same : run_as_scull quantum run
        ≡ linux_device_driver.Scull.Transfer.write k c (as_scull quantum s) m f_pos buf) where
    pub run-Kept : Holds (Kept s m) run
    run-Kept =
        Holds-as_scull (λ r. IsValid r.dev × Balanced m r.mem (held s) (blocks r.dev.items)) run
          (rw same (write-IsValid k c (as_scull quantum s) m f_pos buf valid fits))

    module _ (r : Reply) (n : ℕ) (written : run ≡ done r) (success : r.ret ≡ ok n) where
      there :
          linux_device_driver.Scull.Transfer.write k c (as_scull quantum s) m f_pos buf
          ≡ done (reply_as_scull quantum r)
      there = sym same ∙ ap (run_as_scull quantum) written

      pub run_part : n ≤ length buf
      run_part = omega (
        arith,
        written_part k c (as_scull quantum s) m f_pos buf (reply_as_scull quantum r) n valid fits
            there success,
      )

      pub run_read_back :
          (c' : Call) (back : Outcome Reply)
          → s.size < 2 ^ 64
          → f_pos + length buf < 2 ^ 64
          → c'.interrupted ≡ false
          → c'.left ≡ 0
          → run_as_scull quantum back
            ≡ linux_device_driver.Scull.Transfer.read k c' (as_scull quantum r.store) r.mem f_pos n
          → Holds (λ t. (t.ret ≡ ok n) × (t.out ≡ take n buf)) back
      run_read_back c' back small near calm whole same' =
          Holds-as_scull (λ t. (t.ret ≡ ok n) × (t.out ≡ take n buf)) back
            (rw same' (
              write_then_read k (as_scull quantum s) m f_pos buf valid fits small near c c'
                (reply_as_scull quantum r) n there success calm whole))
