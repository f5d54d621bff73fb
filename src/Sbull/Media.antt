-- ===== src/Sbull/Media.antt =====
-- The simulated removal of the disk: opens, releases and the timer in any order.
use linux_device_driver.Common.{
  ℕ, ◌+◌, ◌^◌, ◌≡◌, ◌≤◌, ◌<◌, inl, inr, true, false, List, arith, refl, sym, ◌∙◌, ◌==◌, ==_iff,
  if◌then◌else◌, some, Bool-cases, Option-cases, ltb, ltb→lt, length, replicate, ◌*◌,
}
use linux_device_driver.Kernel.Clash.{true-ne-false}
use linux_device_driver.Sbull.{
  Disk, open_disk, release_disk, invalidate, revalidate, media_changed, short_inc, short_dec,
  get_geometry,
}

-- What `check_disk_change` does with the driver's operations: ask whether the medium changed, and
-- revalidate it if it did.
abbrev pub Checks : (Disk → Disk) → Type 0
Checks check = (d : Disk) → check d ≡ (if media_changed d then revalidate d else d)

pub data Step (check : Disk → Disk) : Disk → Disk → Type 0 where
  opens : {d : Disk} → d.users + 1 < 2 ^ 15 → Step check d (open_disk check d)
  closes : {d : Disk} → 0 < d.users → Step check d (release_disk d)
  expires : {d : Disk} → d.timer ≡ true → Step check d (invalidate d)

pub record Inv (d : Disk) : Type 0 where
  pub few : d.users < 2 ^ 15
  -- While the disk is in use no timer is pending, and no change of the medium is outstanding.
  pub no_timer : 0 < d.users → d.timer ≡ false
  pub no_change : 0 < d.users → d.media_change ≡ false

module _ (check : Disk → Disk) (h : Checks check) where
  checked_lem :
      (d : Disk)
      → ((check d).users ≡ d.users) × ((check d).timer ≡ d.timer) × ((check d).media_change ≡ false)
  unfolding media_changed revalidate
  checked_lem d = rw (h d) (elim (Bool-cases d.media_change) [
    | inl c ↦ simp c (refl, refl, refl)
    | inr c ↦ simp c (refl, refl, refl)
  ])

  -- An open of an idle disk ends with no outstanding change.
  open_idle :
      (d : Disk)
      → d.users ≡ 0
      → ((open_disk check d).users ≡ 1)
        × ((open_disk check d).timer ≡ false)
        × ((open_disk check d).media_change ≡ false)
  unfolding open_disk
  open_idle d e =
      let (u, t, c) = checked_lem (record d { timer = false }) in
      rw ((==_iff d.users 0).1 e) (rw (u ∙ e) refl, t, c)

  open_busy :
      (d : Disk)
      → 0 < d.users
      → open_disk check d ≡ record d { timer = false; users = short_inc d.users }
  unfolding open_disk
  open_busy d pos = rw (busy) refl
    where
      busy : (d.users == 0) ≡ false
      busy = ground arith

  Step-Inv : {d e : Disk} → Step check d e → Inv d → Inv e
  unfolding release_disk invalidate
  Step-Inv (opens {d} few) v = elim (Bool-cases (d.users == 0)) [
    | inl e ↦
        let (u, t, c) = open_idle d ((==_iff d.users 0).0 e) in
        record { few = omega (arith, u); no_timer = λ p. t; no_change = λ p. c }
    | inr e ↦
        let pos : 0 < d.users = ground arith in
        rw (open_busy d pos) (record {
          few = omega (arith, few);
          no_timer = λ p. refl;
          no_change = λ p. v.no_change pos;
        })
  ]
  Step-Inv (closes {d} pos) v = elim (Bool-cases (short_dec d.users == 0)) [
    | inl last ↦
        let gone : short_dec d.users ≡ 0 = (==_iff (short_dec d.users) 0).0 last in
        rw last (record {
          few = omega (arith, gone);
          no_timer = λ p. absurd (omega (arith, gone, p));
          no_change = λ p. absurd (omega (arith, gone, p));
        })
    | inr more ↦ rw more (record {
      few = omega (arith, v);
      no_timer = λ p. v.no_timer pos;
      no_change = λ p. v.no_change pos;
    })
  ]
  Step-Inv (expires {d} pending) v = elim (Option-cases d.contents) [
    | inl absent ↦ simp (absent, invalidate) (idle _ unused)
    | inr (b, e) ↦ simp (e, invalidate, (==_iff d.users 0).1 unused) (idle _ unused)
  ]
    where
      unused : d.users ≡ 0
      unused = elim (Bool-cases (ltb 0 d.users)) [
        | inl pos ↦ absurd (true-ne-false (sym pending ∙ v.no_timer (ltb→lt 0 d.users pos)))
        | inr z ↦ ground arith
      ]

      idle : (e : Disk) → e.users ≡ 0 → Inv e
      idle e z = record {
        few = omega (arith, z);
        no_timer = λ p. absurd (omega (arith, z, p));
        no_change = λ p. absurd (omega (arith, z, p));
      }

  -- What the steps reach from a disk that nobody uses.
  pub data Reach : Disk → Type 0 where
    here : {d : Disk} → d.users ≡ 0 → Reach d
    next : {d e : Disk} → Reach d → Step check d e → Reach e

  Reach-Inv : {d : Disk} → Reach d → Inv d
  Reach-Inv (here {d} z) = record {
    few = omega (arith, z);
    no_timer = λ p. absurd (omega (arith, z, p));
    no_change = λ p. absurd (omega (arith, z, p));
  }
  Reach-Inv (next p q) = Step-Inv q (Reach-Inv p)

  kept : {d e : Disk} → Step check d e → Inv d → 0 < d.users → e.contents ≡ d.contents
  unfolding release_disk
  kept (opens {d} few) v pos = rw (open_busy d pos) refl
  kept (closes {d} l) v pos = elim (Bool-cases (short_dec d.users == 0)) [
    | inl last ↦ rw last refl
    | inr more ↦ rw more refl
  ]
  kept (expires {d} pending) v pos = absurd (true-ne-false (sym pending ∙ v.no_timer pos))

  -- From a disk that nobody uses, by any opens that leave fewer than 2 ^ 15 users, releases by a user,
  -- and runs of a pending timer: while the disk is in use no timer is pending, no change of the
  -- medium is outstanding, and the next such open, release or timer leaves the contents alone.
  pub used_disk_undisturbed :
      {d e : Disk}
      → Reach d
      → 0 < d.users
      → Step check d e
      → (d.timer ≡ false) × (d.media_change ≡ false) × (e.contents ≡ d.contents)
  used_disk_undisturbed p pos q =
      let v = Reach-Inv p in (v.no_timer pos, v.no_change pos, kept q v pos)

  -- After the last release and the timer, the next open finds the contents wiped.
  pub removed_then_opened :
      (d : Disk) (b : List ℕ)
      → d.users ≡ 1
      → d.contents ≡ some b
      → ((release_disk d).timer ≡ true)
        × ((open_disk check (invalidate (release_disk d))).contents ≡ some (replicate (length b) 0))
        × ((open_disk check (invalidate (release_disk d))).users ≡ 1)
        × ((open_disk check (invalidate (release_disk d))).media_change ≡ false)
  unfolding release_disk invalidate open_disk media_changed revalidate
  removed_then_opened d b one e =
      simp (one, e) (refl, simp (h after) (refl), simp (h after) refl, simp (h after) refl)
    where
      after : Disk
      after = record d { contents = some b; users = 0; media_change = true; timer = false }

-- The geometry that the disk reports counts its bytes as if they were sectors: with the default
-- sector size, the sectors that it claims hold more than 256 times the bytes that there are.
pub geometry_overstates :
    (d : Disk)
    → 128 ≤ d.size
    → d.size < 2 ^ 22
    → (let g = get_geometry 512 d in 256 * d.size < g.cylinders * g.heads * g.sectors * 512)
unfolding get_geometry
geometry_overstates d big small = omega arith
