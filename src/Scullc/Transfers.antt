-- ===== src/Scullc/Transfers.antt =====
-- `scullc_read` and `scullc_write` where they are the transfers of scull/main.c.
use linux_device_driver.Common.{
  true, subst, mod_small, le_of_mul_pos, mod_lt_of_pos, splice_all, ℕ, ◌*◌, ◌%◌, ◌^◌, ◌≡◌, ◌≤◌, ◌<◌,
  ◌⊎◌, inl, inr, refl, sym, ap, ◌∙◌, arith, false, List, length, ltb, Bool-cases, Option, none,
  some, replicate, splice, length-replicate,
}
use linux_device_driver.Kernel.{ok, done, oops, Kernel, Call, Mem, kmalloc}
use linux_device_driver.Kernel.Ledger.{Refused}
use linux_device_driver.Kernel.Clash.{Outcome-cases}
use linux_device_driver.Scull.Device.{Place, Quantum, locate}
use linux_device_driver.Scull.Device.Locate.{located}
use linux_device_driver.Scull.Transfer.{readable, clip, claim_quantum}
use linux_device_driver.Chain.{reply, read_at, write_at}
use linux_device_driver.Chain.AsScull.{
  zeroing, as_scull, run_as_scull, asked-readable, read_at-as_scull, write_at-as_scull,
}
use linux_device_driver.Scullc.{Dev, Config, is_stale, read, clip_write, cache_alloc, write}

-- A read of a device that was not trimmed: past the end it returns nothing and changes nothing;
-- else it returns, delivers and leaves what `scull_read` does on the device seen as a scull device,
-- but where a request for memory is refused it may be undefined.
pub scullc_read-as_scull :
    (k : Kernel) (c : Call) (dev : Dev) (m : Mem) (f_pos count : ℕ)
    → dev.stale ≡ none
    → f_pos < 2 ^ 64
    → count < 2 ^ 64
    → c.interrupted ≡ false
    → (dev.store.size < f_pos → read k c dev m f_pos count ≡ reply (ok 0) f_pos dev.store m)
      × (f_pos ≤ dev.store.size
          → (run_as_scull dev.quantum (read k c dev m f_pos count)
              ≡ linux_device_driver.Scull.Transfer.read
                  (zeroing k)
                  c
                  (as_scull dev.quantum dev.store)
                  m
                  f_pos
                  count)
            ⊎ ((read k c dev m f_pos count ≡ oops) × Refused k))
unfolding read is_stale linux_device_driver.Scull.Transfer.read
scullc_read-as_scull k c dev m f_pos count live hf hc go = (
  (λ past. let e : ltb dev.store.size f_pos ≡ true = ground arith in simp (go, e) refl),
  λ inside.
      let e : ltb dev.store.size f_pos ≡ false = ground arith in
      elim (Outcome-cases (locate dev.quantum dev.store.qset f_pos)) [
        | inl lost ↦ inl (simp (go, e) (rw lost refl))
        | inr (p, found) ↦
            let here : read k c dev m f_pos count
                ≡ read_at k dev.quantum c dev.store m f_pos p
                    (readable dev.store.size f_pos count) =
              simp (go, e)
                (rw (found, live, asked-readable dev.store.size f_pos count hf hc) refl) in
            rw here (read_at-as_scull dev.quantum k c dev.store m f_pos count p go found)
      ],
)

pub clip_write-clip :
    (quantum q_pos count : ℕ)
    → q_pos < quantum
    → quantum < 2 ^ 64
    → clip_write quantum q_pos count ≡ clip quantum q_pos count
unfolding clip_write clip
clip_write-clip quantum q_pos count h w = ground arith

pub cache_alloc-claim :
    (k : Kernel) (g : Config)
    → g.quantum ≡ g.object
    → (slot : Option Quantum) (m : Mem)
    → cache_alloc k g slot m ≡ done (claim_quantum (zeroing k) g.object slot m)
unfolding cache_alloc claim_quantum kmalloc
cache_alloc-claim k g same (some b) m = refl
cache_alloc-claim k g same none m =
    let fits : ltb g.object g.object ≡ false = ground arith in
    let whole : splice (k.junk m.requests g.object) 0 (replicate g.object 0)
        ≡ replicate g.object 0 =
      splice_all (k.junk m.requests g.object) (replicate g.object 0)
        (k.length-junk m.requests g.object ∙ sym (length-replicate {A = ℕ} g.object 0)) in
    elim (Bool-cases (k.grants m.requests)) [
      | inl granted ↦ rw (granted, same, fits, whole) refl
      | inr refused ↦ rw refused refl
    ]

-- In the first quantum of an item the offset in the item is that in the quantum.
first_quantum :
    (quantum qset f_pos : ℕ) (p : Place)
    → locate quantum qset f_pos ≡ done p
    → f_pos % (quantum * qset) < quantum
    → (f_pos % (quantum * qset) % (quantum * qset) ≡ p.q_pos)
      × (p.q_pos < quantum)
      × (quantum < 2 ^ 64)
first_quantum quantum qset f_pos p found first =
    let size = quantum * qset in
    let spot = located quantum qset f_pos p found in
    let outer = mod_small (f_pos % size) size (mod_lt_of_pos f_pos size spot.1) in
    let inner = mod_small (f_pos % size) quantum first in
    let here = ap (λ (r : Place). r.q_pos) spot.0 in
    (
      outer ∙ sym inner ∙ sym here,
      omega (arith, here, inner, first),
      omega (arith, spot, le_of_mul_pos quantum qset spot.1),
    )

-- A write of a device that was not trimmed, with the module's parameter as it was at load, into the
-- first quantum of an item: it returns and leaves what `scull_write` does on the device seen as a
-- scull device, with new quanta cleared, but where a request for memory is refused it may be
-- undefined.
pub scullc_write-as_scull :
    (k : Kernel) (g : Config) (c : Call) (dev : Dev) (m : Mem) (f_pos : ℕ) (buf : List ℕ)
    → dev.stale ≡ none
    → g.quantum ≡ g.object
    → dev.quantum ≡ g.object
    → f_pos % (dev.quantum * dev.store.qset) < dev.quantum
    → (run_as_scull dev.quantum (write k g c dev m f_pos buf)
        ≡ linux_device_driver.Scull.Transfer.write
            (zeroing k)
            c
            (as_scull dev.quantum dev.store)
            m
            f_pos
            buf)
      ⊎ ((write k g c dev m f_pos buf ≡ oops) × Refused k)
unfolding write is_stale linux_device_driver.Scull.Transfer.write
scullc_write-as_scull k g c dev m f_pos buf live same_parameter same_object first =
    elim (Bool-cases c.interrupted) [
      | inl stop ↦ inl (simp stop refl)
      | inr go ↦ elim (Outcome-cases (locate dev.quantum dev.store.qset f_pos)) [
        | inl lost ↦ inl (simp go (rw lost refl))
        | inr (p, found) ↦
            let n = clip dev.quantum p.q_pos (length buf) in
            let spot = first_quantum dev.quantum dev.store.qset f_pos p found first in
            let here : write k g c dev m f_pos buf
                ≡ write_at k (cache_alloc k g) n c dev.store m f_pos p buf =
              simp go (
                rw
                  (
                    found,
                    live,
                    spot.0,
                    clip_write-clip dev.quantum p.q_pos (length buf) spot.1 spot.2,
                  )
                  refl) in
            rw here (
              write_at-as_scull dev.quantum k (cache_alloc k g) n c buf f_pos p
                (subst
                  (λ (o : ℕ).
                    (slot : Option Quantum) (m' : Mem)
                    → cache_alloc k g slot m' ≡ done (claim_quantum (zeroing k) o slot m'))
                  (sym same_object) (cache_alloc-claim k g same_parameter))
                refl dev.store m go found)
      ]
    ]
