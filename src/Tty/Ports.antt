-- ===== src/Tty/Ports.antt =====
-- The ports of the serial driver: the count of opens, the timer that runs while a port is open, and
-- the memory of ports and timers.
use linux_device_driver.Common.{
  ℕ, zero, suc, ◌+◌, ◌-◌, ◌*◌, ◌%◌, ◌^◌, ◌≡◌, ◌≢◌, ◌<◌, ◌⊎◌, inl, inr, true, false, List, [], ◌∷◌,
  arith, refl, sym, ap, ◌∙◌, ◌==◌, ==_iff, ◌||◌, none, some, Option, Bool-cases, length, All,
  get_elem?, leb, All_get, All-set, length-set, replicate, Option-cases, get_elem?-some,
}
use linux_device_driver.Kernel.{
  enomem, ok, err, oops, Kernel, Mem, Holds, Holds-result, kmalloc, kfree,
}
use linux_device_driver.Kernel.Ledger.{Moves, kmalloc_cases}
use linux_device_driver.Kernel.Clash.{ok-ne-err}
use linux_device_driver.Tty.{Tiny, open_port, tiny_open, do_close, del_timer, close_all, tiny_exit}

-- A port that is set up: it has its timer, which runs exactly while the port is open.
pub record IsValid (t : Tiny) : Type 0 where
  pub few : t.open_count < 2 ^ 31
  pub armed : t.timer ≡ true
  pub runs : 0 < t.open_count → t.pending ≡ true
  pub rests : t.open_count ≡ 0 → t.pending ≡ false

module _ (t : Tiny) (v : IsValid t) (pos : 0 < t.open_count) where
  abbrev count' : ℕ
  count' = (t.open_count + (2 ^ 32 - 1)) % 2 ^ 32

  stopped :
      count' ≡ 0
      → IsValid (record t { open_count = count'; timer = true; pending = false })
        × (count' ≡ t.open_count - 1)
  stopped z = (
    record {
      few = omega (arith, z);
      armed = refl;
      runs = λ p. absurd (omega (arith, z, p));
      rests = λ p. refl;
    },
    omega (arith, v, pos),
  )

  kept :
      count' ≢ 0
      → IsValid (record t { open_count = count'; timer = true }) × (count' ≡ t.open_count - 1)
  kept nz = (
    record {
      few = omega (arith, v, pos);
      armed = refl;
      runs = λ p. v.runs pos;
      rests = λ z. absurd (nz z);
    },
    omega (arith, v, pos),
  )

-- Closing a valid port is defined, keeps it valid, and counts one open less if there was one; the
-- last close stops the timer.
pub do_close-IsValid :
    (t : Tiny)
    → IsValid t
    → Holds (λ t'. IsValid t' × (t'.open_count ≡ t.open_count - 1)) (do_close t)
unfolding do_close del_timer
do_close-IsValid t v = elim (Bool-cases (t.open_count == 0)) [
  | inl z ↦ rw z (v, omega (arith, (==_iff t.open_count 0).0 z))
  | inr pos ↦
      let some_open : 0 < t.open_count = ground arith in
      rw (pos, v.armed)
        (elim (Bool-cases ((count' t v some_open == 0) || leb (2 ^ 31) (count' t v some_open))) [
          | inl e ↦ rw e (stopped t v some_open (ground (arith, v, e, some_open)))
          | inr e ↦ rw e (kept t v some_open (ground (arith, v, e, some_open)))
        ])
]

-- The first open of a port whose timer runs now.
started :
    (t : Tiny)
    → t.open_count + 1 < 2 ^ 31
    → IsValid (record t { open_count = (t.open_count + 1) % 2 ^ 32; timer = true; pending = true })
      × ((t.open_count + 1) % 2 ^ 32 ≡ t.open_count + 1)
started t few = (
  record {
    few = omega (arith, few);
    armed = refl;
    runs = λ p. refl;
    rests = λ z. absurd (omega (arith, few, z));
  },
  omega (arith, few),
)

refused_lem :
    (k : Kernel) (t : Tiny) (m : Mem)
    → (((t.open_count + 1) % 2 ^ 32) == 1) ≡ true
    → t.timer ≡ false
    → (kmalloc k m).0 ≡ false
    → (open_port k t m).0 ≡ err enomem
unfolding open_port
refused_lem k t m first bare refusal = rw first (rw (bare, refusal, open_port) refl)

-- What an open of a port leaves that is valid or was just made: if it succeeds, a valid port with
-- one open more.
pub open_port-IsValid :
    (k : Kernel) (t : Tiny) (m : Mem)
    → IsValid t ⊎ (t.open_count ≡ 0)
    → t.open_count + 1 < 2 ^ 31
    → (open_port k t m).0 ≡ ok 0
    → IsValid (open_port k t m).1 × ((open_port k t m).1.open_count ≡ t.open_count + 1)
unfolding open_port
open_port-IsValid k t m v few fine = elim (Bool-cases (((t.open_count + 1) % 2 ^ 32) == 1)) [
  | inr again ↦
      let pos : 0 < t.open_count = ground arith in
      let valid : IsValid t = elim v [ inl w ↦ w | inr z ↦ absurd (omega (arith, z, pos)) ] in
      rw again (
        record {
          few = omega (arith, few);
          armed = valid.armed;
          runs = λ p. valid.runs pos;
          rests = λ z. absurd (omega (arith, few, z));
        },
        omega (arith, few),
      )
  | inl first ↦ elim (Bool-cases t.timer) [
    | inl armed ↦ rw (first) (rw (armed, open_port) (started t few))
    | inr bare ↦ elim (kmalloc_cases k m) [
      | inl (granted, moved) ↦ rw first (rw (bare, granted, open_port) (started t few))
      | inr (refusal, moved, why) ↦
          absurd (ok-ne-err (sym fine ∙ refused_lem k t m first bare refusal))
    ]
  ]
]

-- When the timer of a port cannot be allocated, the open fails but counts: the port stays open once
-- without a timer, and the close that follows deletes a timer through a null pointer.
pub failed_open_then_close :
    (k : Kernel) (t : Tiny) (m : Mem)
    → t.open_count ≡ 0
    → t.timer ≡ false
    → (kmalloc k m).0 ≡ false
    → (let r = open_port k t m in (r.0 ≡ err enomem) × (r.1.open_count ≡ 1) × (do_close r.1 ≡ oops))
unfolding open_port do_close del_timer
failed_open_then_close k t m z bare refusal = simp (z, bare, refusal) (refl, refl, refl)

-- Closing as often as the count says closes a valid port.
close_all-lem :
    (n : ℕ) (t : Tiny)
    → IsValid t
    → t.open_count ≡ n
    → Holds (λ t'. IsValid t' × (t'.open_count ≡ 0)) (close_all n t)
unfolding close_all
close_all-lem zero t v e = (v, e)
close_all-lem (suc n) t v e =
    let (t', same, (w, c)) = Holds-result _ (do_close t) (do_close-IsValid t v) in
    rw same (close_all-lem n t' w (omega (arith, c, e)))

abbrev pub SlotValid : Option Tiny → Type 0
SlotValid none = Unit
SlotValid (some t) = IsValid t

abbrev pub ports : List (Option Tiny) → ℕ
ports [] = 0
ports (none ∷ ts) = ports ts
ports (some t ∷ ts) = suc (ports ts)

-- Unloading a driver whose ports are valid is defined, however often they are open: it ends with
-- an empty table and gives back the port and the timer of each.
pub tiny_exit_lem :
    (ts : List (Option Tiny)) (m : Mem)
    → All SlotValid ts
    → Holds
        (λ r. (r.0 ≡ replicate (length ts) none) × Moves m r.1 0 (2 * ports ts))
        (tiny_exit ts m)
unfolding tiny_exit del_timer kfree
tiny_exit_lem [] m h = (refl, omega arith)
tiny_exit_lem (none ∷ ts) m h =
    let (r, same, (e, moved)) = Holds-result _ (tiny_exit ts m) (tiny_exit_lem ts m h.1) in
    rw same (ap (λ t. none ∷ t) e, moved)
tiny_exit_lem (some t ∷ ts) m h =
    let (t', closed, (w, c)) =
      Holds-result _ (close_all t.open_count t) (close_all-lem t.open_count t h.0 refl) in
    let (r, same, (e, moved)) =
      Holds-result _ (tiny_exit ts (kfree (kfree m))) (tiny_exit_lem ts (kfree (kfree m)) h.1) in
    rw (closed) (rw (w.armed) (rw same (ap (λ t. none ∷ t) e, omega (arith, moved))))

-- An open that succeeds, of a port in use or not yet made, keeps the table's ports valid.
pub tiny_open-Valid :
    (k : Kernel) (junk : Tiny) (index : ℕ) (table : List (Option Tiny)) (m : Mem)
    → All SlotValid table
    → ((t : Tiny) → get_elem? table index ≡ some (some t) → t.open_count + 1 < 2 ^ 31)
    → index < length table
    → Holds
        (λ r. r.0 ≡ ok 0 → (r.1 ≡ true) × All SlotValid r.2 × (length r.2 ≡ length table))
        (tiny_open k junk index table m)
unfolding tiny_open
tiny_open-Valid k junk index table m h few inside =
    let (slot, at) = get_elem?-some table index inside in
    elim (Option-cases slot) [
      | inr (t, e) ↦
          let found : get_elem? table index ≡ some (some t) = at ∙ ap some e in
          simp (found, tiny_open)
            (λ fine.
              let (v, c) =
                open_port-IsValid k t m (inl (All_get SlotValid table index h found)) (few t found)
                  fine in
              (refl, All-set SlotValid table index _ h v, length-set table index _))
      | inl e ↦
          let found : get_elem? table index ≡ some none = at ∙ ap some e in
          elim (kmalloc_cases k m) [
            | inr (refusal, _, _) ↦
                simp (found, refusal, tiny_open) (λ bad. absurd (ok-ne-err (sym bad)))
            | inl (granted, _) ↦
                simp (found, granted, tiny_open)
                  (λ fine.
                    let (v, c) =
                      open_port-IsValid k _ (kmalloc k m).1 (inr refl) (omega arith) fine in
                    (refl, All-set SlotValid table index _ h v, length-set table index _))
          ]
    ]
