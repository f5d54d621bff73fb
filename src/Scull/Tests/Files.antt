-- ===== src/Scull/Tests/Files.antt =====
-- Seeks, commands and histories.
use linux_device_driver.Common.{
  ◌+◌, ◌-◌, ◌^◌, ◌≡◌, ◌≢◌, ◌≤◌, ◌<◌, ◌⊎◌, refl, ap, true, false, none, some, [], ◌∷◌, splice, arith,
}
use linux_device_driver.Kernel.{Holds, done, kmalloc, ok, err, einval}
use linux_device_driver.Kernel.Samples.{generous, smooth, fresh_mem}
use linux_device_driver.Scull.Device.{free_items, trim, locate, follow}
use linux_device_driver.Scull.Transfer.{
  Reply, read, write, store_item, claim_slots, store, claim_quantum, copy_in, clip, fetch, copy_out,
  readable,
}
use linux_device_driver.Scull.Ioctl.{User, Cmd, Request, command, ioctl, reset, p_t_size, t_quantum}
use linux_device_driver.Scull.Ioctl.Laws.{ioctl-Unprivileged}
use linux_device_driver.Scull.File.{open_dev, llseek}
use linux_device_driver.Scull.File.Seek.{end, llseek_lem}
use linux_device_driver.Scull.History.{Reach, here, next, opens, reads, writes, Sizes}
use linux_device_driver.Scull.History.NoLeak.{Sound, Reach-Sound, trim_after_Reach}
use linux_device_driver.Scull.Tests.Devices.{small_config, empty_dev, empty_dev-IsValid}

abbrev visitor : User
visitor = record { capable = false; access_ok = true; word = some 7; put_ok = true }

abbrev admin : User
admin = record visitor { capable = true }

abbrev foreign : Cmd
foreign = record { ty = b'k'; nr = 3; reads = false; writes = false; size = 0 }

command-ty : (r : Request) → (command r).ty ≡ b'x'
unfolding command
command-ty reset = refl
command-ty _ = refl

foreign-ne-command : (r : Request) → foreign ≢ command r
foreign-ne-command r e = absurd (omega (arith, ap (λ (c : Cmd). c.ty) e, command-ty r))

ioctl-Unprivileged_example :
    ((ioctl visitor (command t_quantum) 9 small_config).config ≡ small_config)
    ⊎ (((command t_quantum ≡ command reset)
          × ((ioctl visitor (command t_quantum) 9 small_config).config
              ≡ record small_config { quantum = 4000; qset = 1000 }))
        ⊎ ((command t_quantum ≡ command p_t_size)
            × ((ioctl visitor (command t_quantum) 9 small_config).config
                ≡ record small_config { p_buffer = 9 })))
ioctl-Unprivileged_example = ioctl-Unprivileged visitor (command t_quantum) 9 small_config refl

llseek_lem_example :
    (llseek 10 4 6 2 ≡ (ok 16, 16))
    × (6 ≤ 10 → llseek 10 4 (2 ^ 64 - 6) 2 ≡ (ok 4, 4))
    × (10 < 6 → llseek 10 4 (2 ^ 64 - 6) 2 ≡ (err einval, 4))
llseek_lem_example = llseek_lem end 10 4 6 (omega arith) (omega arith) (omega arith) (omega arith)

abbrev sizes : Sizes small_config
sizes = record { some_bytes = omega arith; int_sized = omega arith }

-- A write-only open, a write of two bytes at position 1, and a read of them.
abbrev written : Reply
written = record {
  ret = ok 2;
  out = [];
  f_pos = 3;
  dev = record empty_dev {
    items = some (some (splice (generous.junk 2 4) 1 (7 ∷ 8 ∷ [])) ∷ none ∷ []) ∷ [];
    size = 3;
  };
  mem = record { requests = 3; allocs = 3; frees = 0 };
}

write_two : write generous smooth empty_dev fresh_mem 1 (7 ∷ 8 ∷ []) ≡ done written
unfolding write locate follow store_item claim_slots store claim_quantum kmalloc copy_in clip
write_two = refl

read_two :
    read generous smooth written.dev written.mem 1 2
    ≡ done
        (record { ret = ok 2; out = 7 ∷ 8 ∷ []; f_pos = 3; dev = written.dev; mem = written.mem })
unfolding read locate follow fetch copy_out clip readable
read_two = refl

used : Reach generous empty_dev fresh_mem written.dev written.mem
unfolding open_dev trim free_items
used =
    next
      (next (next here (opens small_config true false (ok 0, empty_dev, fresh_mem) sizes refl))
        (writes smooth 1 (7 ∷ 8 ∷ []) written (omega arith) write_two))
      (reads smooth 1 2 _ (omega arith) read_two)

Reach-Sound_example : Sound 0 fresh_mem written.dev written.mem
Reach-Sound_example = Reach-Sound generous used empty_dev-IsValid

trim_after_Reach_example :
    Holds
      (λ r. r.1.allocs + fresh_mem.frees ≡ fresh_mem.allocs + r.1.frees)
      (trim small_config written.dev written.mem)
trim_after_Reach_example = trim_after_Reach generous small_config empty_dev-IsValid refl used
