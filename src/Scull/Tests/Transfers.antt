-- ===== src/Scull/Tests/Transfers.antt =====
-- Transfers on small devices.
use linux_device_driver.Common.{ℕ, ◌≡◌, refl, some, List, [], ◌∷◌, arith, length}
use linux_device_driver.Kernel.{Holds, done, ok, kmalloc}
use linux_device_driver.Kernel.Samples.{generous, smooth, fresh_mem}
use linux_device_driver.Scull.Device.{follow, locate}
use linux_device_driver.Scull.Transfer.{
  Reply, read, write, readable, clip, claim_slots, claim_quantum, copy_in, store, store_item,
}
use linux_device_driver.Scull.Transfer.Read.{FileRead, read_refines}
use linux_device_driver.Scull.Transfer.Write.Flat.{FileWrite, write_refines}
use linux_device_driver.Scull.Transfer.RoundTrip.{write_then_read}
use linux_device_driver.Scull.Transfer.PastEnd.{read_past_end}
use linux_device_driver.Scull.Tests.Devices.{used_dev, used_dev-IsValid}

abbrev text : List ℕ
text = 1 ∷ 2 ∷ 3 ∷ []

-- Three bytes at position 6: two fit the second quantum.
abbrev after_write : Reply
after_write = record {
  ret = ok 2;
  out = [];
  f_pos = 8;
  dev = record used_dev {
    items = some (some (10 ∷ 11 ∷ 12 ∷ 99 ∷ []) ∷ some (0 ∷ 0 ∷ 1 ∷ 2 ∷ []) ∷ []) ∷ [];
    size = 8;
  };
  mem = record { requests = 1; allocs = 1; frees = 0 };
}

write_run : write generous smooth used_dev fresh_mem 6 text ≡ done after_write
unfolding write locate follow store_item claim_slots store claim_quantum kmalloc copy_in clip
write_run = refl

write_refines_example :
    Holds
      (FileWrite generous smooth used_dev 6 text)
      (write generous smooth used_dev fresh_mem 6 text)
write_refines_example =
    write_refines generous smooth used_dev fresh_mem 6 text used_dev-IsValid (omega arith)

read_refines_example :
    Holds
      (FileRead smooth used_dev fresh_mem 0 (readable 2 0 9))
      (read generous smooth used_dev fresh_mem 0 9)
read_refines_example =
    read_refines generous smooth used_dev fresh_mem 0 9 used_dev-IsValid (omega arith)

write_then_read_example :
    Holds
      (λ s. (s.ret ≡ ok 2) × (s.out ≡ 1 ∷ 2 ∷ []))
      (read generous smooth after_write.dev after_write.mem 6 2)
write_then_read_example =
    write_then_read generous used_dev fresh_mem 6 text used_dev-IsValid (omega arith) (omega arith)
      (omega arith) smooth smooth after_write 2 write_run refl refl refl

-- One byte asked for behind the end, and two returned.
read_past_end_example :
    Holds (λ s. (s.ret ≡ ok 1) × (length s.out ≡ 1)) (read generous smooth used_dev fresh_mem 3 1)
read_past_end_example =
    read_past_end generous smooth used_dev fresh_mem 3 1 99 used_dev-IsValid (omega arith)
      (omega arith) (omega arith) (omega arith) refl refl refl
