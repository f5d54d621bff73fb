-- ===== src/Tty/Lines.antt =====
-- The modem lines of a port: what a set reads back as.
use linux_device_driver.Common.{
  ℕ, ◌≡◌, Bool, true, false, arith, refl, if◌then◌else◌, ◌||◌, ◌&&◌, not, ap, ◌∙◌,
}
use linux_device_driver.Tty.{Tiny, Modem, bit, set_bit, clear_bit, tiocmget, tiocmset}

-- Bit 1 of a register after a set and after a clear, and the other two bits that are read.
set_two :
    (w : ℕ)
    → (bit 2 (set_bit 2 w) ≡ true)
      × (bit 1 (set_bit 2 w) ≡ bit 1 w)
      × (bit 4 (set_bit 2 w) ≡ bit 4 w)
set_two w = (ground arith, ground arith, ground arith)

clear_two :
    (w : ℕ)
    → (bit 2 (clear_bit 2 w) ≡ false)
      × (bit 1 (clear_bit 2 w) ≡ bit 1 w)
      × (bit 4 (clear_bit 2 w) ≡ bit 4 w)
clear_two w = (ground arith, ground arith, ground arith)

-- One conditional set or clear of bit 1.
set_if :
    (s : Bool) (w : ℕ)
    → (bit 2 (if s then set_bit 2 w else w) ≡ (s || bit 2 w))
      × (bit 1 (if s then set_bit 2 w else w) ≡ bit 1 w)
set_if true w = ((set_two w).0, (set_two w).1)
set_if false w = (refl, refl)

clear_if :
    (s : Bool) (w : ℕ)
    → (bit 2 (if s then clear_bit 2 w else w) ≡ (not s && bit 2 w))
      × (bit 1 (if s then clear_bit 2 w else w) ≡ bit 1 w)
clear_if true w = ((clear_two w).0, (clear_two w).1)
clear_if false w = (refl, refl)

-- After `tiny_tiocmset` the port reports RTS as: off when the call clears RTS or DTR, else on when
-- it sets RTS or DTR, else as before. It reports DTR, CTS and DSR as before, whatever the call
-- sets or clears.
pub tiocmset_then_get :
    (s c : Modem) (t : Tiny)
    → (let after = tiocmget (tiocmset s c t).1 in
        (after.rts ≡ (not (c.rts || c.dtr) && ((s.rts || s.dtr) || (tiocmget t).rts)))
        × (after.dtr ≡ (tiocmget t).dtr)
        × (after.cts ≡ (tiocmget t).cts)
        × (after.dsr ≡ (tiocmget t).dsr))
unfolding tiocmget tiocmset
tiocmset_then_get s c t =
    let a = if s.rts then set_bit 2 t.mcr else t.mcr in
    let b = if s.dtr then set_bit 2 a else a in
    let d = if c.rts then clear_bit 2 b else b in
    let (a2, a1) = set_if s.rts t.mcr in
    let (b2, b1) = set_if s.dtr a in
    let (d2, d1) = clear_if c.rts b in
    let (e2, e1) = clear_if c.dtr d in
    (
      e2
          ∙ ap (λ x. not c.dtr && x) (d2 ∙ ap (λ x. not c.rts && x) (b2 ∙ ap (λ x. s.dtr || x) a2))
          ∙ shuffle s.rts s.dtr c.rts c.dtr (bit 2 t.mcr),
      e1 ∙ d1 ∙ b1 ∙ a1,
      refl,
      refl,
    )
  where
    shuffle :
        (sr sd cr cd o : Bool)
        → (not cd && (not cr && (sd || (sr || o)))) ≡ (not (cr || cd) && ((sr || sd) || o))
    shuffle sr sd cr cd o = ground arith
