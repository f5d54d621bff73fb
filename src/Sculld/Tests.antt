-- ===== src/Sculld/Tests.antt =====
-- The sculld devices at concrete sizes: pages of 4 bytes and 2 quanta in an item.
use linux_device_driver.Common.{
  ℕ, ◌≡◌, ◌⊎◌, inl, refl, true, false, none, some, List, [], ◌∷◌, arith,
}
use linux_device_driver.Kernel.{Holds, done, oops, ok, kmalloc}
use linux_device_driver.Kernel.Ledger.{Refused}
use linux_device_driver.Kernel.Samples.{generous, smooth, fresh_mem}
use linux_device_driver.Scull.Device.{IsValid, locate}
use linux_device_driver.Scull.Transfer.{clip, claim_slots}
use linux_device_driver.Chain.{walk}
use linux_device_driver.Chain.{Reply, store_item, store, copy_in, put_data, write_at}
use linux_device_driver.Chain.AsScull.{zeroing, as_scull, run_as_scull}
use linux_device_driver.Sculld.{Dev, Config, read, write, get_pages}
use linux_device_driver.Sculld.Transfers.{sculld_write-as_scull, read_after_write}
use linux_device_driver.Sculld.Module.{Host, fresh}

abbrev text : List ℕ
text = 7 ∷ 8 ∷ 9 ∷ []

abbrev single_pages : Config
single_pages = record { qset = 2; order = 0 }

abbrev empty_dev : Dev
empty_dev = fresh single_pages

empty_dev-IsValid : IsValid (as_scull 4 empty_dev.store)
empty_dev-IsValid = record { shaped = (tt, tt); some_bytes = omega arith; int_sized = omega arith }

-- Position 9 is the second byte of the second item.
sculld_write-as_scull_example :
    (run_as_scull 4 (write 4 generous smooth empty_dev fresh_mem 9 text)
      ≡ linux_device_driver.Scull.Transfer.write
          (zeroing generous)
          smooth
          (as_scull 4 empty_dev.store)
          fresh_mem
          9
          text)
    ⊎ ((write 4 generous smooth empty_dev fresh_mem 9 text ≡ oops) × Refused generous)
sculld_write-as_scull_example =
    sculld_write-as_scull 4 generous smooth empty_dev fresh_mem 9 text (inl refl)

abbrev written_dev : Dev
written_dev = record empty_dev {
  store = record {
    array = none;
    next = some (some (0 ∷ 7 ∷ 8 ∷ 9 ∷ []) ∷ none ∷ []) ∷ [];
    qset = 2;
    size = 12;
  };
}

abbrev after_write : Reply
after_write = record {
  ret = ok 3;
  out = [];
  f_pos = 12;
  store = written_dev.store;
  mem = record { requests = 3; allocs = 3; frees = 0 };
}

write_run : write 4 generous smooth empty_dev fresh_mem 9 text ≡ done after_write
unfolding write write_at locate walk kmalloc store_item claim_slots store get_pages copy_in clip
    put_data
write_run = refl

read_after_write_example :
    Holds
      (λ s. (s.ret ≡ ok 3) × (s.out ≡ text))
      (read 4 generous smooth written_dev after_write.mem 9 3)
    ⊎ Refused generous
read_after_write_example =
    read_after_write 4 generous smooth smooth empty_dev fresh_mem 9 text after_write 3
      empty_dev-IsValid (inl refl) (omega arith) (omega arith) (omega arith) write_run refl refl
      refl

-- Quanta of two pages, of which a new item gets one.
abbrev double_pages : Config
double_pages = record { qset = 2; order = 1 }

abbrev no_host : Host
no_host = record { region = false; driver = false; cdevs = 0; ldevs = 0; mem = fresh_mem }

abbrev loaded_host : Host
loaded_host = record {
  region = true;
  driver = true;
  cdevs = 2;
  ldevs = 2;
  mem = record { requests = 1; allocs = 1; frees = 0 };
}
