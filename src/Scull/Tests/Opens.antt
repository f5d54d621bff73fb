-- ===== src/Scull/Tests/Opens.antt =====
-- The access-controlled devices at concrete callers.
use linux_device_driver.Common.{
  ◌≡◌, ◌≤◌, ◌<◌, ◌^◌, ◌-◌, refl, true, false, some, [], ◌∷◌, arith, List, length, All,
}
use linux_device_driver.Kernel.{Holds, Ret, ok, err, ebusy, done, Mem}
use linux_device_driver.Kernel.Samples.{generous, fresh_mem}
use linux_device_driver.Scull.Device.{trim, free_items}
use linux_device_driver.Scull.Access.{
  Caller, Statics, Owner, Wake, ListItem, dec_and_test, s_open_tested, u_open, refused, grant,
  available, find_key, w_wait, lookfor_device, c_open, put_key, access_cleanup, s_file,
}
use linux_device_driver.Scull.Access.Single.{
  inside, single_exclusive, here, next, finds_free, finds_busy, enters, backs_off,
}
use linux_device_driver.Scull.Access.Users.{Admitted, WaitEnds, user_exclusive, w_wait_lem}
use linux_device_driver.Scull.Access.Clones.{c_open_isolated}
use linux_device_driver.Scull.Tests.Devices.{small_config, empty_dev, used_dev}

abbrev alice : Caller
alice = record { uid = 500; euid = 500; capable = false; write_only = false; nonblock = false }

abbrev bob : Caller
bob = record alice { uid = 501; euid = 501; nonblock = true }

abbrev statics : Statics
statics = record {
  s_device = used_dev;
  u_device = empty_dev;
  w_device = empty_dev;
  c_device = empty_dev;
}

abbrev opened_single : linux_device_driver.Scull.Access.Single.State
opened_single = record { counter = 0; entering = 0; backing = 0; holders = 1 }

s_open_alice :
    s_open_tested small_config alice true 0 statics fresh_mem ≡ done (ok 0, 0, statics, fresh_mem)
unfolding s_open_tested
s_open_alice = refl

s_open_bob :
    s_open_tested small_config bob false (2 ^ 32 - 1) statics fresh_mem
    ≡ done (err ebusy, 0, statics, fresh_mem)
unfolding s_open_tested
s_open_bob = refl

-- Alice opens the device, and Bob finds it busy and backs off.
alice_then_bob : linux_device_driver.Scull.Access.Single.Reach small_config opened_single
alice_then_bob =
    next
      (next
        (next (next here (finds_free (omega arith) refl))
          (enters alice statics fresh_mem (ok 0, 0, statics, fresh_mem) refl s_open_alice))
        (finds_busy (omega arith) refl))
      (backs_off bob statics fresh_mem (err ebusy, 0, statics, fresh_mem) refl s_open_bob)

single_exclusive_example :
    (opened_single.holders ≤ 1)
    × (opened_single.holders ≡ 1 → (dec_and_test opened_single.counter).0 ≡ false)
    × (inside opened_single ≡ 0 → (dec_and_test opened_single.counter).0 ≡ true)
single_exclusive_example = single_exclusive {g = small_config} {s = opened_single} alice_then_bob

abbrev nobody : Owner
nobody = record { count = 0; owner = 0 }

abbrev alices : Owner
alices = record { count = 1; owner = 500 }

u_open-alice :
    u_open small_config alice nobody statics fresh_mem
    ≡ done (ok 0, alices, statics, some s_file, fresh_mem)
unfolding u_open refused grant
u_open-alice = refl

user_exclusive_example :
    (1 ≡ length (alice ∷ []))
    × All (Admitted 500) (alice ∷ [])
    × (¬ Admitted 500 bob → 0 < length (alice ∷ []) → refused alices bob ≡ true)
user_exclusive_example =
    user_exclusive {g = small_config} {s = record { state = alices; inside = alice ∷ [] }} bob (
      linux_device_driver.Scull.Access.Users.next (linux_device_driver.Scull.Access.Users.here 0) (
        linux_device_driver.Scull.Access.Users.opens alice statics fresh_mem
          (ok 0, alices, statics, some s_file, fresh_mem) (omega arith) u_open-alice refl))

abbrev one_clone : List ListItem
one_clone = record { device = used_dev; key = 4 } ∷ []

abbrev two_clones : List ListItem
two_clones = record { device = empty_dev; key = 5 } ∷ one_clone

c_open_new :
    c_open generous small_config alice (some 5) one_clone fresh_mem
    ≡ done (ok 0, two_clones, record { requests = 1; allocs = 1; frees = 0 })
unfolding c_open lookfor_device find_key put_key trim free_items linux_device_driver.Kernel.kmalloc
c_open_new = refl

c_open_isolated_example : find_key 4 two_clones ≡ find_key 4 one_clone
c_open_isolated_example =
    c_open_isolated generous small_config alice 5 4 one_clone fresh_mem
      (ok 0, two_clones, record { requests = 1; allocs = 1; frees = 0 }) (λ e. ground arith)
      c_open_new
