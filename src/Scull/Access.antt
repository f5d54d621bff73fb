-- ===== src/Scull/Access.antt =====
-- The access-controlled devices, scull/access.c: who may open them, and which device an open uses.
-- A section under a spin lock is one step. `atomic_dec_and_test` and the `atomic_inc` that takes it
-- back are two steps, between which other processes run.
pub mod Single
pub mod Users
pub mod Clones
pub mod Modules
use linux_device_driver.Common.{
  ℕ, ◌+◌, ◌-◌, ◌%◌, ◌^◌, Bool, true, false, Option, none, some, List, [], ◌∷◌, not, ◌&&◌, ◌||◌,
  if◌then◌else◌, ◌==◌, ltb,
}
use linux_device_driver.Kernel.{
  erestartsys, ebusy, eagain, enomem, einval, Ret, ok, err, Outcome, done, oops, ◌>>=◌, Kernel, Mem,
  kmalloc, kfree,
}
use linux_device_driver.Scull.Device.{Dev, Config, trim}

-- The process that calls, and how it opens the file.
pub record Caller : Type 0 where
  pub uid : ℕ
  pub euid : ℕ
  pub capable : Bool
  pub write_only : Bool
  pub nonblock : Bool

-- The static devices `scull_s_device`, `scull_u_device`, `scull_w_device` and `scull_c_device`.
pub record Statics : Type 0 where
  pub s_device : Dev
  pub u_device : Dev
  pub w_device : Dev
  pub c_device : Dev

-- What `private_data` of the file names.
pub data Opened : Type 0 where
  s_file u_file w_file : Opened

-- `atomic_dec_and_test`: the 32-bit counter goes down, and whether it is 0 then.
abbrev pub dec_and_test : ℕ → Bool × ℕ
dec_and_test n = let n' = (n + (2 ^ 32 - 1)) % 2 ^ 32 in (n' == 0, n')

abbrev pub atomic_inc : ℕ → ℕ
atomic_inc n = (n + 1) % 2 ^ 32

abbrev pub trim_if : Bool → Config → Dev → Mem → Outcome (Dev × Mem)
trim_if write_only g d m = if write_only then trim g d m else done (d, m)

-- `scull_s_open`, from the test on, with the counter `n` that the test left.
unfoldable pub s_open_tested :
    Config → Caller → Bool → ℕ → Statics → Mem → Outcome (Ret × ℕ × Statics × Mem)
s_open_tested g u free n s m = if not free then done (err ebusy, atomic_inc n, s, m) else (do
  t ← trim_if u.write_only g s.s_device m
  done (ok 0, n, record s { s_device = t.0 }, t.1))

unfoldable pub s_open : Config → Caller → ℕ → Statics → Mem → Outcome (Ret × ℕ × Statics × Mem)
s_open g u available s m = let (free, n) = dec_and_test available in s_open_tested g u free n s m

unfoldable pub s_release : ℕ → ℕ
s_release available = atomic_inc available

-- `scull_u_count` and `scull_u_owner`, or those of the waiting kind.
pub record Owner : Type 0 where
  pub count : ℕ
  pub owner : ℕ

-- The test of `scull_u_open`, negated, and `scull_w_available`.
unfoldable pub available : Owner → Caller → Bool
available o u = (o.count == 0) || (o.owner == u.uid) || (o.owner == u.euid) || u.capable

unfoldable pub refused : Owner → Caller → Bool
refused o u =
    not (o.count == 0) && not (o.owner == u.uid) && not (o.owner == u.euid) && not u.capable

-- The grant: the first opener becomes the owner.
unfoldable pub grant : Owner → Caller → Owner
grant o u = record {
  count = (o.count + 1) % 2 ^ 32;
  owner = if o.count == 0 then u.uid else o.owner;
}

unfoldable pub u_release : Owner → Owner
u_release o = record o { count = (o.count + (2 ^ 32 - 1)) % 2 ^ 32 }

-- `scull_u_open`, which works on `scull_s_device`.
unfoldable pub u_open :
    Config → Caller → Owner → Statics → Mem → Outcome (Ret × Owner × Statics × Option Opened × Mem)
u_open g u o s m = if refused o u then done (err ebusy, o, s, none, m) else (do
  t ← trim_if u.write_only g s.s_device m
  done (ok 0, grant o u, record s { s_device = t.0 }, some s_file, t.1))

-- A process that slept until the device seemed available: whether a signal woke it, and the
-- counter and owner when it holds the lock again.
pub record Wake : Type 0 where
  pub signal : Bool
  pub seen : Owner

-- The end of the loop of `scull_w_open`: an error, the state in which the caller is let in, or
-- nothing while it sleeps.
unfoldable pub w_wait : Caller → List Wake → Owner → Option (Ret × Owner)
w_wait u [] o =
    if available o u then some (ok 0, o) else if u.nonblock then some (err eagain, o) else none
w_wait u (w ∷ ws) o =
    let rest = w_wait u ws w.seen in
    if available o u
    then some (ok 0, o)
    else if u.nonblock
    then some (err eagain, o)
    else if w.signal
    then some (err erestartsys, w.seen)
    else rest

abbrev w_enter :
    Config → Caller → Ret × Owner → Statics → Mem → Outcome (Ret × Owner × Statics × Mem)
w_enter g u (ok n, o) s m = do
  t ← trim_if u.write_only g s.w_device m
  done (ok 0, grant o u, record s { w_device = t.0 }, t.1)
w_enter g u (err e, o) s m = done (err e, o, s, m)

-- `scull_w_open`; the first component of the answer is absent while the caller sleeps.
unfoldable pub w_open :
    Config
    → Caller
    → List Wake
    → Owner
    → Statics
    → Mem
    → Option (Outcome (Ret × Owner × Statics × Mem))
w_open g u ws o s m = elim (w_wait u ws o) [ none ↦ none | some a ↦ some (w_enter g u a s m) ]

-- `scull_w_release`: the state, and whether it wakes those that wait.
unfoldable pub w_release : Owner → Owner × Bool
w_release o = let o' = u_release o in (o', o'.count == 0)

-- `struct scull_listitem` and `scull_c_list`, the newest item first.
pub record ListItem : Type 0 where
  pub device : Dev
  pub key : ℕ

unfoldable pub find_key : ℕ → List ListItem → Option Dev
find_key key [] = none
find_key key (l ∷ ls) = let rest = find_key key ls in if l.key == key then some l.device else rest

-- The device that a pointer into the list names, changed.
unfoldable pub put_key : ℕ → Dev → List ListItem → List ListItem
put_key key d [] = []
put_key key d (l ∷ ls) =
    let rest = put_key key d ls in if l.key == key then record l { device = d } ∷ ls else l ∷ rest

-- A device after `memset`.
abbrev pub zeroed : Dev
zeroed = record { items = []; quantum = 0; qset = 0; size = 0; access_key = 0 }

-- `scull_c_lookfor_device`.
unfoldable pub lookfor_device :
    Kernel → Config → ℕ → List ListItem → Mem → Outcome (Option Dev × List ListItem × Mem)
lookfor_device k g key ls m = elim (find_key key ls) [
  | some d ↦ done (some d, ls, m)
  | none ↦
      let (granted, m') = kmalloc k m in
      if granted
      then (do t ← trim g zeroed m'; done (some t.0, record { device = t.0; key = key } ∷ ls, t.1))
      else done (none, ls, m')
]

-- `scull_c_open`; `tty` is the number of the caller's terminal, if it has one.
unfoldable pub c_open :
    Kernel → Config → Caller → Option ℕ → List ListItem → Mem → Outcome (Ret × List ListItem × Mem)
c_open k g u none ls m = done (err einval, ls, m)
c_open k g u (some key) ls m = do
  found ← lookfor_device k g key ls m
  elim found.0 [
    | none ↦ done (err enomem, found.1, found.2)
    | some d ↦ do t ← trim_if u.write_only g d found.2; done (ok 0, put_key key t.0 found.1, t.1)
  ]

-- `scull_access_setup`, but for the registration of the character device, whose failure it only
-- prints.
unfoldable pub setup : Config → Dev → Dev
setup g d = record d { quantum = g.quantum; qset = g.qset }

-- `scull_access_init`: how many device numbers it took.
unfoldable pub access_init : Config → Bool → Statics → ℕ × Statics
access_init g registered s = if not registered then (0, s) else (
  4,
  record {
    s_device = setup g s.s_device;
    u_device = setup g s.u_device;
    w_device = setup g s.w_device;
    c_device = setup g s.c_device;
  },
)

unfoldable pub free_list : Config → List ListItem → Mem → Outcome Mem
free_list g [] m = done m
free_list g (l ∷ ls) m = do t ← trim g l.device m; free_list g ls (kfree t.1)

-- `cdev_del` of a static device, whose character device must have been set up.
unfoldable pub cdev_del : (initialised : Bool) → Dev → Outcome Dev
cdev_del initialised d = if initialised then done d else oops

-- `scull_access_cleanup`; `initialised` is whether `scull_access_init` has set the character devices
-- up. Whether the device numbers are kept, the devices, and the books.
unfoldable pub access_cleanup :
    Config → (initialised : Bool) → Statics → List ListItem → Mem → Outcome (Bool × Statics × Mem)
access_cleanup g initialised s ls m = do
  a0 ← cdev_del initialised s.s_device
  a ← trim g a0 m
  b0 ← cdev_del initialised s.u_device
  b ← trim g b0 a.1
  c0 ← cdev_del initialised s.w_device
  c ← trim g c0 b.1
  d0 ← cdev_del initialised s.c_device
  d ← trim g d0 c.1
  m' ← free_list g ls d.1
  done (false, record { s_device = a.0; u_device = b.0; w_device = c.0; c_device = d.0 }, m')
