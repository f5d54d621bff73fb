-- ===== src/Scullc/Ioctl/Raise.antt =====
-- What a process that raises the quantum does to the next writes.
use linux_device_driver.Common.{
  ℕ, ◌*◌, ◌%◌, ◌^◌, ◌≡◌, ◌<◌, ◌≤◌, refl, true, false, none, some, List, arith, replicate, lt→ltb,
  mod_small, ◌/◌, div_lt_of_lt_mul, get_elem?-replicate, Option,
}
use linux_device_driver.Kernel.{ok, oops, ◌>>=◌, Kernel, Call, Mem, Holds, kmalloc}
use linux_device_driver.Scull.Device.{int_max, Place, Quantum}
use linux_device_driver.Scull.Device.Locate.{place_of-IsPlace, locate_lem}
use linux_device_driver.Scull.Ioctl.{Cmd, User, io, same_cmd}
use linux_device_driver.Chain.{Store, walk, write_at, store_item, store, free_next}
use linux_device_driver.Scull.Transfer.{claim_slots}
use linux_device_driver.Scullc.{Config, cache_alloc, write, open_dev, trim, free_data, is_stale}
use linux_device_driver.Scullc.Module.{fresh}
use linux_device_driver.Scullc.Ioctl.{scullc_ioctl, scullc_request, serve}

zero-div : (n : ℕ) → 0 < n → 0 / n ≡ 0
zero-div n h = let few : 0 / n < 1 = div_lt_of_lt_mul 0 n 1 (omega (arith, h)) in omega (arith, few)

module _ (k : Kernel) (grants_all : (n : ℕ) → k.grants n ≡ true) (g : Config)
    (raised : g.object < g.quantum) where
  no_object : (m : Mem) → cache_alloc k g none m ≡ oops
  unfolding cache_alloc kmalloc
  no_object m = let more = lt→ltb g.object g.quantum raised in rw (grants_all m.requests, more) refl

  -- Where a slot of a new array is wanted, the object made for it is too small.
  new_array_overruns :
      (c : Call) (f_pos n : ℕ) (p : Place) (buf : List ℕ) (s : Store) (m : Mem)
      → p.s_pos < s.qset
      → store_item k (cache_alloc k g) n c f_pos p buf s m none ≡ oops
  unfolding store_item store claim_slots kmalloc
  new_array_overruns c f_pos n p buf s m inside =
      let empty = get_elem?-replicate {A = Option Quantum} s.qset p.s_pos none inside in
      let claimed : (claim_slots k s.qset none m).0 ≡ some (replicate s.qset none) =
        rw (grants_all m.requests) refl in
      let stored : (m' : Mem)
          → store k (cache_alloc k g) n c f_pos p buf s m' (replicate s.qset none) ≡ oops =
        λ m'. rw (empty, ◌>>=◌, no_object m') refl in
      rw (store_item, claimed) (stored (claim_slots k s.qset none m).1)

  -- The first write to a device without data runs past the end of a new object.
  first_write_overruns :
      (c : Call) (m : Mem) (buf : List ℕ)
      → c.interrupted ≡ false
      → 0 < g.quantum * g.qset
      → g.quantum * g.qset ≤ int_max
      → write k g c (fresh g) m 0 buf ≡ oops
  unfolding write is_stale write_at walk
  first_write_overruns c m buf go some_bytes sized =
      let v = place_of-IsPlace g.quantum g.qset some_bytes 0 in
      let item : 0 / (g.quantum * g.qset) ≡ 0 = zero-div (g.quantum * g.qset) some_bytes in
      let at = locate_lem g.quantum g.qset some_bytes 0 sized (omega (arith, item)) in
      simp go (rw (at, item) (new_array_overruns c 0 _ _ buf _ m v.s_in))

-- Any process may raise the quantum behind the size of the cache's objects, whatever it is allowed;
-- the next write to a device that was empty, after an open that trims it, is a write past the end
-- of an object. Memory is granted, no signal comes, items have slots and fit an int with the new
-- quantum, and the command to reset has another number.
pub told_quantum_overruns :
    (k : Kernel) (reset_cmd : Cmd) (u : User) (g : Config) (n : ℕ) (c : Call) (m : Mem)
    (buf : List ℕ)
    → ((i : ℕ) → k.grants i ≡ true)
    → same_cmd (io 2) reset_cmd ≡ false
    → g.object < n
    → 0 < g.qset
    → n * g.qset ≤ int_max
    → c.interrupted ≡ false
    → let a = scullc_ioctl reset_cmd u (io 2) n g in
      (a.ret ≡ ok 0)
      × Holds
          (λ t. write k a.config c t.1 t.2 0 buf ≡ oops)
          (open_dev a.config true false (fresh g) m)
unfolding scullc_ioctl scullc_request serve open_dev trim free_data free_next
told_quantum_overruns k reset_cmd u g n c m buf grants_all other raised some_slots sized go =
    let g' = record g { quantum = n } in
    let small : n % 2 ^ 32 ≡ n = mod_small n (2 ^ 32) (grind (arith, sized, some_slots)) in
    let some_bytes : 0 < n * g.qset = grind (arith, raised, some_slots) in
    let boom = first_write_overruns k grants_all g' raised c m buf go some_bytes sized in
    rw (other, small) (refl, boom)
