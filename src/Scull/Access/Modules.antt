-- ===== src/Scull/Access/Modules.antt =====
-- Loading and unloading the access-controlled devices.
use linux_device_driver.Common.{true, false, ℕ, suc, ◌+◌, ◌≡◌, List, [], ◌∷◌, arith, refl, All}
use linux_device_driver.Kernel.{done, Mem, Holds, kfree}
use linux_device_driver.Kernel.Ledger.{Moves}
use linux_device_driver.Scull.Device.{Dev, Config, blocks, IsValid}
use linux_device_driver.Scull.Device.Trim.{trim-done}
use linux_device_driver.Scull.Access.{ListItem, Statics, free_list, cdev_del, access_cleanup}

abbrev pub list_blocks : List ListItem → ℕ
list_blocks [] = 0
list_blocks (l ∷ ls) = suc (blocks l.device.items) + list_blocks ls

abbrev pub ItemValid : ListItem → Type 0
ItemValid l = IsValid l.device

abbrev pub trimmed : Config → Dev → Dev
trimmed g d = record d { items = []; size = 0; quantum = g.quantum; qset = g.qset }

free_list-done :
    (g : Config) (ls : List ListItem) (m : Mem)
    → All ItemValid ls
    → (m' : Mem) × (free_list g ls m ≡ done m') × Moves m m' 0 (list_blocks ls)
unfolding free_list kfree
free_list-done g [] m h = (m, refl, omega arith)
free_list-done g (l ∷ ls) m h =
    let (t, e, same, moved) = trim-done g l.device m h.0 in
    let (m', f, rest) = free_list-done g ls (kfree t.1) h.1 in
    (m', rw e f, omega (arith, moved, rest))

pub record StaticsValid (s : Statics) : Type 0 where
  pub s_valid : IsValid s.s_device
  pub u_valid : IsValid s.u_device
  pub w_valid : IsValid s.w_device
  pub c_valid : IsValid s.c_device

abbrev pub static_blocks : Statics → ℕ
static_blocks s =
    blocks s.s_device.items
    + blocks s.u_device.items
    + blocks s.w_device.items
    + blocks s.c_device.items

-- Where the static and the cloned devices are valid and the character devices were set up, unloading
-- is defined, gives back the device numbers and exactly the blocks that are held, the list's items
-- included, and leaves the static devices empty.
pub access_cleanup_lem :
    (g : Config) (s : Statics) (ls : List ListItem) (m : Mem)
    → StaticsValid s
    → All ItemValid ls
    → Holds
        (λ r.
          (r.0 ≡ false)
          × (r.1 ≡ record {
            s_device = trimmed g s.s_device;
            u_device = trimmed g s.u_device;
            w_device = trimmed g s.w_device;
            c_device = trimmed g s.c_device;
          })
          × Moves m r.2 0 (static_blocks s + list_blocks ls))
        (access_cleanup g true s ls m)
unfolding access_cleanup cdev_del
access_cleanup_lem g s ls m v h =
    let (a, e1, same1, moved1) = trim-done g s.s_device m v.s_valid in
    let (b, e2, same2, moved2) = trim-done g s.u_device a.1 v.u_valid in
    let (c, e3, same3, moved3) = trim-done g s.w_device b.1 v.w_valid in
    let (d, e4, same4, moved4) = trim-done g s.c_device c.1 v.c_valid in
    let (m', e5, moved5) = free_list-done g ls d.1 h in
    rw (e1, e2, e3, e4, e5)
      (
        refl,
        rw (same1, same2, same3, same4) refl,
        omega (arith, moved1, moved2, moved3, moved4, moved5),
      )
