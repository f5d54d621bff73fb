-- ===== src/Usb.antt =====
-- The USB skeleton driver, usb/usb-skeleton.c. The USB core is a set of answers: which endpoints an
-- interface has, whether a minor number is free, how a transfer ends. `kref` is a 32-bit counter.
pub mod Refs
pub mod Probe
pub mod Life
pub mod Sound
pub mod Unplug
pub mod Write
mod Tests
use linux_device_driver.Common.{
  ℕ, zero, suc, ◌+◌, ◌-◌, ◌/◌, ◌%◌, ◌^◌, Bool, true, false, Option, none, some, List, [], ◌∷◌, not,
  ◌&&◌, ◌||◌, if◌then◌else◌, ltb, ◌==◌, length, min,
}
use linux_device_driver.Kernel.{
  Errno, enomem, enodev, efault, Ret, ok, err, Outcome, done, oops, ◌>>=◌, Kernel, Mem, kmalloc,
  kfree, kfree?,
}

-- `struct usb_skel`; `bulk_in_buffer` says whether the pointer is set.
pub record Skel : Type 0 where
  pub bulk_in_buffer : Bool
  pub bulk_in_size : ℕ
  pub bulk_in : ℕ
  pub bulk_out : ℕ
  pub kref : ℕ

-- What the driver keeps and what it holds of others: the structure while it is allocated, the
-- interface's pointer to it, its minor number, and the references to the USB device.
pub record World : Type 0 where
  pub dev : Option Skel
  pub intfdata : Bool
  pub minor : Bool
  pub udev_refs : ℕ
  pub mem : Mem

-- `skel_delete`.
unfoldable pub skel_delete : Skel → World → World
skel_delete s w = record w {
  dev = none;
  udev_refs = w.udev_refs - 1;
  mem = kfree (if s.bulk_in_buffer then kfree w.mem else w.mem);
}

-- `kref_get` and `kref_put` of the structure, which must still be there.
unfoldable pub get_ref : World → Outcome World
get_ref w = elim w.dev [
  | none ↦ oops
  | some s ↦ done (record w { dev = some (record s { kref = (s.kref + 1) % 2 ^ 32 }) })
]

unfoldable pub put_ref : World → Outcome World
put_ref w = elim w.dev [
  | none ↦ oops
  | some s ↦
      let s' = record s { kref = (s.kref + (2 ^ 32 - 1)) % 2 ^ 32 } in
      done (if s'.kref == 0 then skel_delete s' w else record w { dev = some s' })
]

-- `skel_open`: the result, and whether `private_data` names the structure.
unfoldable pub skel_open : World → Outcome (Ret × World)
skel_open w =
    if not w.minor
    then done (err enodev, w)
    else if not w.intfdata
    then done (err enodev, w)
    else (do w' ← get_ref w; done (ok 0, w'))

-- `skel_release` of a file that was opened.
unfoldable pub skel_release : World → Outcome (Ret × World)
skel_release w = do w' ← put_ref w; done (ok 0, w')

-- `skel_disconnect`.
unfoldable pub skel_disconnect : World → Outcome World
skel_disconnect w = put_ref (record w { intfdata = false; minor = false })

-- An endpoint's descriptor: bEndpointAddress, bmAttributes and wMaxPacketSize.
pub record Endpoint : Type 0 where
  pub addr : ℕ
  pub attributes : ℕ
  pub max_packet : ℕ

abbrev pub is_in : Endpoint → Bool
is_in e = not (e.addr / 128 % 2 == 0)

abbrev pub is_bulk : Endpoint → Bool
is_bulk e = e.attributes % 4 == 2

-- The second half of the loop's body in `skel_probe`.
unfoldable pub take_out : Endpoint → Skel → Skel
take_out e s =
    if (s.bulk_out == 0) && not (is_in e) && is_bulk e then record s { bulk_out = e.addr } else s

-- The loop of `skel_probe` over the endpoints; whether it ran to its end.
unfoldable pub scan : Kernel → List Endpoint → Skel → Mem → Bool × Skel × Mem
scan k [] s m = (true, s, m)
scan k (e ∷ es) s m =
    let (granted, m') = kmalloc k m in
    let s' = record s { bulk_in_size = e.max_packet; bulk_in = e.addr; bulk_in_buffer = granted } in
    let found = scan k es (take_out e s') m' in
    let passed = scan k es (take_out e s) m in
    if (s.bulk_in == 0) && is_in e && is_bulk e
    then (if granted then found else (false, s', m'))
    else passed

abbrev pub cleared : Skel
cleared = record { bulk_in_buffer = false; bulk_in_size = 0; bulk_in = 0; bulk_out = 0; kref = 1 }

-- `skel_probe`; `minor_error` is what `usb_register_dev` answers. An unbound driver starts it.
unfoldable pub skel_probe : Kernel → List Endpoint → Option Errno → World → Outcome (Ret × World)
skel_probe k es minor_error w =
    let (granted, m) = kmalloc k w.mem in
    if not granted
    then done (err enomem, record w { mem = m })
    else let (whole, s, m') = scan k es cleared m in
      let bound = record w { dev = some s; udev_refs = w.udev_refs + 1; mem = m' } in
      if not (whole && not (s.bulk_in == 0) && not (s.bulk_out == 0))
      then (do w' ← put_ref bound; done (err enomem, w'))
      else elim minor_error [
        | none ↦ done (ok 0, record bound { intfdata = true; minor = true })
        | some e ↦ do w' ← put_ref bound; done (err e, w')
      ]

-- `skel_read`: what `usb_bulk_msg` answers, an error or the bytes received in the buffer of the
-- size it is given, and the bytes that `copy_to_user` leaves. The result, and the bytes delivered.
unfoldable pub skel_read :
    Skel → (bulk_msg : ℕ → Option Errno × List ℕ) → (left count : ℕ) → Ret × List ℕ
skel_read s bulk_msg left count =
    let (failed, bytes) = bulk_msg (min s.bulk_in_size count) in
    elim failed [
      | some e ↦ (err e, [])
      | none ↦ if left == 0 then (ok (length bytes), bytes) else (err efault, [])
    ]

-- What happens to a write: whether the core gives a urb and a buffer, whether the user copy is
-- whole, and how the submission ends. `null_ok` says whether the core takes a null buffer back.
pub record Luck : Type 0 where
  pub urb_ok : Bool
  pub buffer_ok : Bool
  pub copy_ok : Bool
  pub submit_error : Option Errno
  pub null_ok : Bool

-- The urbs and buffers that the driver holds and those that the core holds.
pub record Held : Type 0 where
  pub urbs : ℕ
  pub buffers : ℕ
  pub submitted : ℕ

-- The pointer `buf` of `skel_write`: null, or the buffer, which may have been given back already.
pub data Buf : Type 0 where
  null allocated freed : Buf

-- `usb_buffer_free(dev->udev, count, buf, urb->transfer_dma)`, which reads through `urb`.
unfoldable pub usb_buffer_free : Luck → (urb : Bool) → Buf → Held → Outcome (Buf × Held)
usb_buffer_free l false b h = oops
usb_buffer_free l true null h = if l.null_ok then done (null, h) else oops
usb_buffer_free l true allocated h = done (freed, record h { buffers = h.buffers - 1 })
usb_buffer_free l true freed h = oops

-- `usb_free_urb`, which does nothing with a null pointer.
unfoldable pub usb_free_urb : (urb : Bool) → Held → Held
usb_free_urb urb h = if urb then record h { urbs = h.urbs - 1 } else h

-- `kfree(buf)`.
unfoldable pub kfree_buf : Buf → Held → Outcome Held
kfree_buf null h = done h
kfree_buf allocated h = done (record h { buffers = h.buffers - 1 })
kfree_buf freed h = oops

-- The label `error` of `skel_write`, with a urb or without.
unfoldable pub write_error : Luck → (urb : Bool) → Buf → Ret → Held → Outcome (Ret × Held)
write_error l urb buf r h = do
  (buf', h1) ← usb_buffer_free l urb buf h
  h2 ← kfree_buf buf' (usb_free_urb urb h1)
  done (r, h2)

-- `skel_write`. The constant ENOMEM, 12, is returned without its sign.
unfoldable pub skel_write : Luck → (count : ℕ) → Held → Outcome (Ret × Held)
skel_write l count h =
    if count == 0
    then done (ok 0, h)
    else if not l.urb_ok
    then write_error l false null (err enomem) h
    else let h1 = record h { urbs = h.urbs + 1 } in
      if not l.buffer_ok
      then write_error l true null (ok 12) h1
      else let h2 = record h1 { buffers = h1.buffers + 1 } in
        if not l.copy_ok
        then write_error l true allocated (err efault) h2
        else elim l.submit_error [
          | some e ↦ write_error l true allocated (err e) h2
          | none ↦ done (ok count, record h2 { urbs = h2.urbs - 1; submitted = h2.submitted + 1 })
        ]

-- `skel_write_bulk_callback`, when the core is done with a urb.
unfoldable pub write_callback : Held → Held
write_callback h = record h { buffers = h.buffers - 1; submitted = h.submitted - 1 }
