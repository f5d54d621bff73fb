-- ===== src/Jiq/Ends.antt =====
-- The chain of work items ends, and stays inside the page.
use linux_device_driver.Common.{
  ℕ, zero, suc, ◌+◌, ◌≡◌, ◌≤◌, ◌<◌, ◌⊎◌, Bool, false, ◌||◌, Option, none, some, ap, inl, inr,
  if◌then◌else◌, ltb, ◌==◌, arith, refl, Bool-cases, sym, ◌∙◌, true,
}
use linux_device_driver.Kernel.Clash.{true-ne-false, some_injective, none-ne-some}
use linux_device_driver.Jiq.{Client, header, limit, jiq_print, jiq_print_wq, run_work, jiq_read}

-- Every row has some bytes, and `width` at most.
pub record RowsFit (row : ℕ → ℕ) (width : ℕ) : Type 0 where
  pub some_bytes : (n : ℕ) → 0 < row n
  pub few_bytes : (n : ℕ) → row n ≤ width

module _ (page : ℕ) (time row : ℕ → ℕ) (width : ℕ) (fit : RowsFit row width) (room : width ≤ 128)
    (big : 128 + header + width ≤ page) where
  -- The work is queued and nobody was woken, or it is not and the reader was woken, with the page
  -- filled past the limit; what was printed is inside the page, and is more than the runs so far.
  record Going (runs : ℕ) (d : Client) : Type 0 where
    pub inside : d.len ≤ page
    pub open_still : d.queued ≡ true → (d.awake ≡ false) × (runs ≤ d.len)
    pub ended : d.queued ≡ false → (d.awake ≡ true) × (limit page < d.len)

  still_inside :
      (d : Client) (bytes : ℕ)
      → ltb (limit page) d.len ≡ false
      → bytes ≤ width
      → d.len + ((if d.len == 0 then header else 0) + bytes) ≤ page
  still_inside d bytes open_still few = elim (Bool-cases (d.len == 0)) [
    | inl first ↦ rw first (ground (arith, first))
    | inr later ↦ rw later (ground (arith, open_still))
  ]

  work_off : (runs n : ℕ) (d : Client) → d.queued ≡ false → run_work page time row runs n d ≡ d
  unfolding run_work
  work_off zero n d off = refl
  work_off (suc runs) n d off = rw off refl

  -- A run that finds the page full wakes the reader.
  woken :
      (total : ℕ) (d : Client)
      → d.len ≤ page
      → ltb (limit page) d.len ≡ true
      → Going total (record d { queued = false; awake = true })
  woken total d inside full = record {
    inside = inside;
    open_still = λ z. absurd (true-ne-false (sym z));
    ended = λ z. (refl, ground (arith, full));
  }

  run_work-Going :
      (runs n total : ℕ) (d : Client)
      → total ≡ runs + n
      → Going n d
      → Going total (run_work page time row runs n d)
  unfolding run_work jiq_print_wq jiq_print
  run_work-Going zero n total d sum v = record {
    inside = v.inside;
    open_still = λ z. ((v.open_still z).0, omega (arith, sum, (v.open_still z).1));
    ended = v.ended;
  }
  run_work-Going (suc runs) n total d sum v = elim (Bool-cases d.queued) [
    | inr off ↦ rw (work_off (suc runs) n d off) (record {
      inside = v.inside;
      open_still = λ on. absurd (true-ne-false (sym on ∙ off));
      ended = v.ended;
    })
    | inl on ↦ elim (Bool-cases (ltb (limit page) d.len)) [
      | inl full ↦
          let done_with = record d { queued = false; awake = true } in
          rw (on, full, work_off runs (suc n) done_with refl) (woken total d v.inside full)
      | inr room_left ↦
          let head = if d.len == 0 then header else 0 in
          let d' = record d { len = d.len + (head + row n); jiffies = time n; queued = true } in
          let more : Going (suc n) d' = record {
            inside = still_inside d (row n) room_left (fit.few_bytes n);
            open_still =
                λ z. ((v.open_still on).0, omega (arith, (v.open_still on).1, fit.some_bytes n));
            ended = λ z. absurd (true-ne-false z);
          } in
          rw (on, room_left) (run_work-Going runs (suc n) total d' (omega (arith, sum)) more)
    ]
  ]

  abbrev fresh : (delay now : ℕ) → Client
  fresh delay now = record { len = 0; jiffies = now; delay = delay; queued = true; awake = false }

  fresh-Going : (runs delay now : ℕ) → Going runs (run_work page time row runs 0 (fresh delay now))
  fresh-Going runs delay now = run_work-Going runs 0 runs (fresh delay now) (omega arith) (record {
    inside = omega arith;
    open_still = λ z. (refl, omega arith);
    ended = λ z. absurd (true-ne-false z);
  })

  abbrev answer : Bool → Client → Option (ℕ × Client)
  answer signal d = if signal || d.awake then some (d.len, d) else none

  awake_answers : (signal : Bool) (d : Client) → d.awake ≡ true → answer signal d ≡ some (d.len, d)
  awake_answers true d awake = refl
  awake_answers false d awake = rw awake refl

  answered :
      (signal : Bool) (d d' : Client) (n : ℕ)
      → answer signal d ≡ some (n, d')
      → ((d.len ≡ n) × (d ≡ d')) × ((d.awake ≡ true) ⊎ (signal ≡ true))
  answered true d d' n e =
      let same = some_injective e in ((ap (λ t. t.0) same, ap (λ t. t.1) same), inr refl)
  answered false d d' n e = elim (Bool-cases d.awake) [
    | inl awake ↦
        let same = some_injective (sym (awake_answers false d awake) ∙ e) in
        ((ap (λ t. t.0) same, ap (λ t. t.1) same), inl awake)
    | inr asleep ↦
        let nothing : answer false d ≡ none = rw asleep refl in
        absurd (none-ne-some (n, d') (sym nothing ∙ e))
  ]

  answered_inside :
      (signal : Bool) (runs : ℕ) (d d' : Client) (n : ℕ)
      → Going runs d
      → answer signal d ≡ some (n, d')
      → (n ≤ page)
        × (((d'.queued ≡ false) × (limit page < n)) ⊎ ((d'.queued ≡ true) × (signal ≡ true)))
  answered_inside signal runs d d' n v e =
      let ((len_is, same), why) = answered signal d d' n e in
      (
        omega (arith, v.inside, len_is),
        rw (← same) (elim (Bool-cases d.queued) [
          | inr off ↦ inl (off, omega (arith, len_is, (v.ended off).1))
          | inl on ↦ elim why [
            | inl awake ↦ absurd (true-ne-false (sym awake ∙ (v.open_still on).0))
            | inr signalled ↦ inr (on, signalled)
          ]
        ]),
      )

  -- A read of /proc/jiqwq or /proc/jiqwqdelay, if no row is empty or longer than the 128 bytes that
  -- the limit keeps free, and a page holds these, the heading and a row. After more runs of the
  -- work than the page has bytes it has returned, whether a signal came or not. Whatever it returns
  -- stays inside the page, and either the work no longer runs and what was printed passes the
  -- limit, or a signal came and the work is still queued to print into the page.
  pub jiq_read-ends :
      (signal : Bool) (runs delay now : ℕ)
      → (page < runs → (r : ℕ × Client) × (jiq_read page time row signal runs delay now ≡ some r))
        × ((n : ℕ) (d : Client)
            → jiq_read page time row signal runs delay now ≡ some (n, d)
            → (n ≤ page)
              × (((d.queued ≡ false) × (limit page < n)) ⊎ ((d.queued ≡ true) × (signal ≡ true))))
  unfolding jiq_read
  jiq_read-ends signal runs delay now =
      let v = fresh-Going runs delay now in
      let d = run_work page time row runs 0 (fresh delay now) in
      (
        (λ enough. elim (Bool-cases d.queued) [
          | inr off ↦ ((d.len, d), awake_answers signal d (v.ended off).0)
          | inl on ↦ absurd (omega (arith, enough, v.inside, (v.open_still on).1))
        ]),
        λ n d' e. answered_inside signal runs d d' n v e,
      )
