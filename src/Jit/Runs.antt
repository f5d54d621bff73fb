-- ===== src/Jit/Runs.antt =====
-- What the runs of the timer or the tasklet leave of the structure.
use linux_device_driver.Common.{
  ℕ, zero, suc, ◌-◌, ◌≡◌, ◌≤◌, ◌<◌, Bool, true, false, List, [], ◌∷◌, inl, inr, ◌==◌, arith, refl,
  sym, ap, ◌∙◌, length, take, ◌++◌, Bool-cases,
}
use mathlib.Core.List.{append-nil, append_assoc}
use linux_device_driver.Jit.{Row, Data, jit_timer_fn, jit_tasklet_fn, run_all, started}

-- Rows of runs at the given times, each with the time since the one before.
abbrev pub spaced : ℕ → List ℕ → List Row
spaced prev [] = []
spaced prev (j ∷ js) = record { at = j; delta = j - prev } ∷ spaced j js

-- What a run of either function does to a structure that is scheduled.
abbrev pub Runs : (ℕ → Data → Data) → Type 0
Runs fn =
    (j : ℕ) (d : Data)
    → ((fn j d).rows ≡ d.rows ++ (record { at = j; delta = j - d.prevjiffies } ∷ []))
      × ((fn j d).loops ≡ d.loops - 1)
      × (1 < d.loops
          → ((fn j d).armed ≡ true) × ((fn j d).awake ≡ d.awake) × ((fn j d).prevjiffies ≡ j))
      × (d.loops ≡ 1 → ((fn j d).armed ≡ false) × ((fn j d).awake ≡ true))

timer-Runs : (tdelay : ℕ) → Runs (jit_timer_fn tdelay)
unfolding jit_timer_fn
timer-Runs tdelay j d = elim (Bool-cases (d.loops - 1 == 0)) [
  | inl last ↦ rw last (refl, refl, (λ more. absurd (ground (arith, last))), (λ one. (refl, refl)))
  | inr more ↦
      rw more (refl, refl, (λ h. (refl, refl, refl)), (λ one. absurd (ground (arith, more))))
]

tasklet-Runs : Runs jit_tasklet_fn
unfolding jit_tasklet_fn
tasklet-Runs j d = elim (Bool-cases (d.loops - 1 == 0)) [
  | inl last ↦ rw last (refl, refl, (λ more. absurd (ground (arith, last))), (λ one. (refl, refl)))
  | inr more ↦
      rw more (refl, refl, (λ h. (refl, refl, refl)), (λ one. absurd (ground (arith, more))))
]

-- What the runs at the given times leave of a structure with some loops to go.
pub record Ran (d r : Data) (js : List ℕ) : Type 0 where
  pub printed : r.rows ≡ d.rows ++ spaced d.prevjiffies (take d.loops js)
  pub to_go : r.loops ≡ d.loops - length js
  pub sleeping : length js < d.loops → (r.armed ≡ true) × (r.awake ≡ false)
  pub woken : d.loops ≤ length js → (r.armed ≡ false) × (r.awake ≡ true)

take_first : (n j : ℕ) (js : List ℕ) → 0 < n → take n (j ∷ js) ≡ j ∷ take (n - 1) js
take_first zero j js h = absurd (omega (arith, h))
take_first (suc n) j js h = ap (λ (m : ℕ). j ∷ take m js) {x = n} {y = suc n - 1} (omega arith)

single_run : (n j : ℕ) (js : List ℕ) → n ≡ 1 → take n (j ∷ js) ≡ j ∷ []
single_run n j js e = rw e refl

take-nil : (n : ℕ) → take {A = ℕ} n [] ≡ []
take-nil zero = refl
take-nil (suc n) = refl

module _ (fn : ℕ → Data → Data) (runs : Runs fn) where
  run_all-stopped : (js : List ℕ) (d : Data) → d.armed ≡ false → run_all fn js d ≡ d
  unfolding run_all
  run_all-stopped [] d stopped = refl
  run_all-stopped (j ∷ js) d stopped = rw stopped refl

  run_all-nil : (d : Data) → run_all fn [] d ≡ d
  unfolding run_all
  run_all-nil d = refl

  run_all-step :
      (j : ℕ) (js : List ℕ) (d : Data)
      → d.armed ≡ true
      → run_all fn (j ∷ js) d ≡ run_all fn js (fn j d)
  unfolding run_all
  run_all-step j js d armed = rw armed refl

  pub run_all-Ran :
      (js : List ℕ) (d : Data)
      → 0 < d.loops
      → d.armed ≡ true
      → d.awake ≡ false
      → Ran d (run_all fn js d) js
  run_all-Ran [] d some_loops armed asleep = rw (run_all-nil d) (record {
    printed =
        sym (append-nil d.rows)
        ∙ ap (λ t. d.rows ++ spaced d.prevjiffies t) (sym (take-nil d.loops));
    to_go = omega arith;
    sleeping = λ h. (armed, asleep);
    woken = λ h. absurd (omega (arith, h, some_loops));
  })
  run_all-Ran (j ∷ js) d some_loops armed asleep =
      let (row, less, more, last) = runs j d in
      let d' = fn j d in
      let taken : take d.loops (j ∷ js) ≡ j ∷ take d'.loops js =
        rw less (take_first d.loops j js some_loops) in
      rw (run_all-step j js d armed) (elim (Bool-cases (d.loops == 1)) [
        | inl one ↦
            let single : d.loops ≡ 1 = ground (arith, one) in
            let (stopped, woken) = last single in
            rw (run_all-stopped js d' stopped) (record {
              printed = rw (row, single_run d.loops j js single) refl;
              to_go = omega (arith, less, single);
              sleeping = λ h. absurd (omega (arith, h, single));
              woken = λ h. (stopped, woken);
            })
        | inr many ↦
            let (armed', awake', prev') = more (ground (arith, many, some_loops)) in
            let v =
              run_all-Ran js d' (ground (arith, less, many, some_loops)) armed' (awake' ∙ asleep) in
            record {
              printed =
                  rw (v.printed, row, taken, prev')
                    (append_assoc d.rows (record { at = j; delta = j - d.prevjiffies } ∷ [])
                      (spaced j (take d'.loops js)));
              to_go = omega (arith, v, less);
              sleeping = λ h. v.sleeping (omega (arith, h, less));
              woken = λ h. v.woken (omega (arith, h, less, some_loops));
            }
      ])

  -- Runs in two parts are runs one after the other.
  pub run_all-append :
      (before js : List ℕ) (d : Data)
      → run_all fn js (run_all fn before d) ≡ run_all fn (before ++ js) d
  run_all-append [] js d = rw (run_all-nil d) refl
  run_all-append (j ∷ before) js d = elim (Bool-cases d.armed) [
    | inl armed ↦
        rw (run_all-step j before d armed, run_all-step j (before ++ js) d armed)
          (run_all-append before js (fn j d))
    | inr stopped ↦
        rw
          (
            run_all-stopped (j ∷ before) d stopped,
            run_all-stopped js d stopped,
            run_all-stopped (j ∷ (before ++ js)) d stopped,
          )
          refl
  ]

-- A structure that was started, when its reader looks first, and later.
pub record Looks (start early late : Data) (before js : List ℕ) : Type 0 where
  pub first : Ran start early before
  pub last : Ran start late (before ++ js)

started-Looks :
    (fn : ℕ → Data → Data) (runs : Runs fn) (expires j : ℕ) (hi : Bool) (before js : List ℕ)
    → let d = started expires j hi in
      Looks d (run_all fn before d) (run_all fn js (run_all fn before d)) before js
started-Looks fn runs expires j hi before js =
    let d = started expires j hi in
    rw (run_all-append fn runs before js d) (record {
      first = run_all-Ran fn runs before d (omega arith) refl refl;
      last = run_all-Ran fn runs (before ++ js) d (omega arith) refl refl;
    })

pub timer-Looks :
    (tdelay expires j : ℕ) (hi : Bool) (before js : List ℕ)
    → let d = started expires j hi in
      let early = run_all (jit_timer_fn tdelay) before d in
      Looks d early (run_all (jit_timer_fn tdelay) js early) before js
timer-Looks tdelay = started-Looks (jit_timer_fn tdelay) (timer-Runs tdelay)

pub tasklet-Looks :
    (expires j : ℕ) (hi : Bool) (before js : List ℕ)
    → let d = started expires j hi in
      let early = run_all jit_tasklet_fn before d in
      Looks d early (run_all jit_tasklet_fn js early) before js
tasklet-Looks = started-Looks jit_tasklet_fn tasklet-Runs
