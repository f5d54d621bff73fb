-- ===== src/Usb/Write.antt =====
-- `skel_write` when all goes well, and on its error paths.
use linux_device_driver.Common.{
  ℕ, ◌≡◌, ◌<◌, true, false, none, ◌⊎◌, inl, inr, arith, refl, Bool-cases, Option-cases, ◌==◌,
}
use linux_device_driver.Kernel.{ok, done, oops, Holds}
use linux_device_driver.Usb.{
  Luck, Held, skel_write, write_error, usb_buffer_free, usb_free_urb, kfree_buf, write_callback,
}

-- All that the write asks for is granted.
pub record Lucky (l : Luck) : Type 0 where
  pub urb : l.urb_ok ≡ true
  pub buffer : l.buffer_ok ≡ true
  pub copy : l.copy_ok ≡ true
  pub submit : l.submit_error ≡ none

-- A write of some bytes that is granted all it asks for reports all of them, and holds no urb
-- afterwards; when the core calls back, the buffer is given back and the driver holds what it held
-- before.
pub write_then_callback :
    (l : Luck) (count : ℕ) (h : Held)
    → 0 < count
    → Lucky l
    → Holds
        (λ r. (r.0 ≡ ok count) × (r.1.urbs ≡ h.urbs) × (write_callback r.1 ≡ h))
        (skel_write l count h)
unfolding skel_write write_callback
write_then_callback l count h some_bytes v =
    let pos : (count == 0) ≡ false = ground arith in
    simp (pos, v.urb, v.buffer, v.copy, v.submit) (refl, omega arith, ground arith)

-- A write of some bytes that is refused anything is undefined, for it frees its buffer twice or
-- reads through a null urb; but for a refused buffer, where it reports that 12 bytes were written,
-- though none was, or hands the core a null buffer that it does not take.
pub failed_write :
    (l : Luck) (count : ℕ) (h : Held)
    → 0 < count
    → ¬ Lucky l
    → (skel_write l count h ≡ oops)
      ⊎ ((l.buffer_ok ≡ false) × (skel_write l count h ≡ done (ok 12, h)))
unfolding skel_write write_error usb_buffer_free usb_free_urb kfree_buf
failed_write l count h pos unlucky =
    let some_bytes : (count == 0) ≡ false = ground arith in
    elim (Bool-cases l.urb_ok) [
      | inr no_urb ↦ inl (simp (some_bytes, no_urb) refl)
      | inl urb ↦ elim (Bool-cases l.buffer_ok) [
        | inr no_buffer ↦ elim (Bool-cases l.null_ok) [
          | inl taken ↦ inr (no_buffer, simp (some_bytes, urb, no_buffer, taken) (ground arith))
          | inr kept ↦ inl (simp (some_bytes, urb, no_buffer, kept) refl)
        ]
        | inl buffer ↦ elim (Bool-cases l.copy_ok) [
          | inr fault ↦ inl (simp (some_bytes, urb, buffer, fault) refl)
          | inl copy ↦ elim (Option-cases l.submit_error) [
            | inr (e, why) ↦ inl (simp (some_bytes, urb, buffer, copy, why) refl)
            | inl fine ↦
                absurd (unlucky (record { urb = urb; buffer = buffer; copy = copy; submit = fine }))
          ]
        ]
      ]
    ]
