-- ===== src/Scull/Transfer/RoundTrip.antt =====
-- `scull_read` after `scull_write`.
use linux_device_driver.Common.{
  Bool-cases, get_elem?-some, ◌==◌, ℕ, suc, ◌+◌, ◌-◌, ◌*◌, ◌/◌, ◌^◌, ◌≡◌, ◌≤◌, ◌<◌, refl, sym, ap,
  ◌∙◌, inl, inr, false, none, some, List, [], ◌∷◌, arith, length, get_elem?, take, min, max,
  get_elem?-take, length-take,
}
use linux_device_driver.Kernel.{ok, done, Kernel, Call, Mem, Holds, Holds-done, Holds-mono}
use linux_device_driver.Kernel.Ledger.{Balanced}
use linux_device_driver.Kernel.Clash.{ok_injective, none-ne-some, true-ne-false, ok-ne-err}
use linux_device_driver.Scull.Device.{Dev, blocks, int_max, IsValid}
use linux_device_driver.Scull.Device.Locate.{place_of}
use linux_device_driver.Scull.Transfer.{Reply, readable, read, write}
use linux_device_driver.Scull.Transfer.View.{content}
use linux_device_driver.Scull.Transfer.Read.{FileRead, read_refines}
use linux_device_driver.Scull.Transfer.Write.Flat.{FileWrite, write_refines, write-IsValid, chunk}

-- Lists of one length with the same entries are equal.
list_ext :
    (xs ys : List ℕ)
    → length xs ≡ length ys
    → ((j : ℕ) → j < length xs → get_elem? xs j ≡ get_elem? ys j)
    → xs ≡ ys
list_ext [] [] h e = refl
list_ext [] (y ∷ ys) h e = absurd (omega arith)
list_ext (x ∷ xs) [] h e = absurd (omega arith)
list_ext (x ∷ xs) (y ∷ ys) h e =
    let head : some x ≡ some y = e 0 (omega arith) in
    let rest = list_ext xs ys (omega arith) (λ j l. e (suc j) (omega arith)) in cc (head, rest)

-- A position inside the file: a read is cut to the bytes that are left.
pub readable_inside :
    (size f_pos count : ℕ)
    → size < 2 ^ 64
    → f_pos + count < 2 ^ 64
    → f_pos ≤ size
    → readable size f_pos count ≡ min count (size - f_pos)
unfolding readable
readable_inside size f_pos count hs hc h = ground arith

module _ (k : Kernel) (dev : Dev) (m : Mem) (f_pos : ℕ) (buf : List ℕ) (valid : IsValid dev)
    (fits : f_pos / (dev.quantum * dev.qset) ≤ int_max) (small : dev.size < 2 ^ 64)
    (near : f_pos + length buf < 2 ^ 64) (c c' : Call) (r : Reply) (n : ℕ)
    (written : write k c dev m f_pos buf ≡ done r) (success : r.ret ≡ ok n)
    (calm : c'.interrupted ≡ false) (whole : c'.left ≡ 0) where
  wrote : FileWrite k c dev f_pos buf r
  wrote =
      Holds-done (FileWrite k c dev f_pos buf) (write k c dev m f_pos buf)
        (write_refines k c dev m f_pos buf valid fits) written

  sound : IsValid r.dev
  sound =
      (Holds-done (λ r. IsValid r.dev × Balanced m r.mem (blocks dev.items) (blocks r.dev.items))
        (write k c dev m f_pos buf) (write-IsValid k c dev m f_pos buf valid fits) written).0

  abbrev part : ℕ
  part = chunk dev f_pos (length buf)

  -- What the successful write left.
  Stored : Type 0
  Stored =
      (n ≡ part)
      × (r.dev.size ≡ max dev.size (f_pos + part))
      × ((j : ℕ) → j < part → content r.dev (f_pos + j) ≡ get_elem? buf j)

  stored : Stored
  unfolding Stored
  stored = elim wrote.outcome [
    | inl w ↦ (ok_injective (sym success ∙ w.0), w.2, w.3)
    | inr f ↦ absurd (ok-ne-err (sym success ∙ f.1))
  ]

  -- The read's count is neither cut by the size nor by the quantum.
  want_all : readable r.dev.size f_pos n ≡ n
  unfolding Stored
  want_all = omega (
    arith,
    stored.0,
    stored.1,
    readable_inside r.dev.size f_pos n (omega (arith, stored.0, stored.1)) (omega (arith, stored.0))
        (omega (arith, stored.1)),
  )

  room_same :
      r.dev.quantum - (place_of r.dev.quantum r.dev.qset f_pos).q_pos
      ≡ dev.quantum - (place_of dev.quantum dev.qset f_pos).q_pos
  room_same = rw (wrote.quantum_same, wrote.qset_same) refl

  take_entry : (j : ℕ) → j < n → get_elem? (take n buf) j ≡ content r.dev (f_pos + j)
  unfolding Stored
  take_entry j l = get_elem?-take n j buf l ∙ sym (stored.2 j (omega (arith, stored.0)))

  nothing_missing : content r.dev f_pos ≡ none → n ≡ 0
  unfolding Stored
  nothing_missing e = elim (Bool-cases (n == 0)) [
    | inl zero_bytes ↦ ground arith
    | inr some_bytes ↦
        let (v, first) = get_elem?-some buf 0 (ground (arith, stored.0)) in
        let there = stored.2 0 (ground (arith, stored.0)) in
        absurd (
          none-ne-some v
            (sym e ∙ ap (content r.dev) {x = f_pos} {y = f_pos + 0} (omega arith) ∙ there ∙ first))
  ]

  read_back :
      (s : Reply)
      → FileRead c' r.dev r.mem f_pos (readable r.dev.size f_pos n) s
      → (s.ret ≡ ok n) × (s.out ≡ take n buf)
  unfolding Stored
  read_back s f = elim f.outcome [
    | inl (got, ret_is, count_is, length_is, pos_is, bytes) ↦
        let all : got ≡ n = omega (arith, count_is, want_all, room_same, stored.0) in
        (
          ret_is ∙ ap ok all,
          list_ext s.out (take n buf) (omega (arith, length_is, all, length-take n buf, stored.0))
              (λ j l.
                bytes j (omega (arith, length_is))
                ∙ sym (take_entry j (omega (arith, length_is, all)))),
        )
    | inr (inl (ret_is, out_is, pos_is, missing)) ↦
        let empty : n ≡ 0 = nothing_missing missing in
        (ret_is ∙ ap ok (sym empty), out_is ∙ rw empty refl)
    | inr (inr (e, ret_is, why, out_is, pos_is)) ↦ elim why [
      | inl (_, stop) ↦ absurd (true-ne-false (sym stop ∙ calm))
      | inr (_, fault) ↦ absurd (fault whole)
    ]
  ]

  -- What a successful `scull_write` stored, `scull_read` of as many bytes at the same position
  -- returns, if no signal and no fault of the user's memory stops it.
  pub write_then_read :
      Holds (λ s. (s.ret ≡ ok n) × (s.out ≡ take n buf)) (read k c' r.dev r.mem f_pos n)
  write_then_read =
      Holds-mono _ _ (read k c' r.dev r.mem f_pos n) read_back (
        read_refines k c' r.dev r.mem f_pos n sound (rw (wrote.quantum_same, wrote.qset_same) fits))
