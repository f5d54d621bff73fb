-- ===== src/Scull/Access/Single.antt =====
-- The single-open device under any interleaving: the test of `scull_s_open`, its way back, and
-- `scull_s_release` are steps that many processes take in any order.
use linux_device_driver.Common.{
  ℕ, suc, ◌+◌, ◌-◌, ◌%◌, ◌^◌, ◌≡◌, ◌≤◌, ◌<◌, true, false, arith, sym, ap, refl, ==_iff,
}
use linux_device_driver.Kernel.{done, ok, err, Ret, Mem}
use linux_device_driver.Kernel.Clash.{bind-done, done_injective}
use linux_device_driver.Scull.Device.{Config}
use linux_device_driver.Scull.Access.{
  Caller, Statics, dec_and_test, atomic_inc, s_open_tested, s_release, trim_if,
}

-- The counter, how many processes found the device free and how many found it busy and have not
-- finished their open yet, and how many opens have succeeded without a release.
pub record State : Type 0 where
  pub counter : ℕ
  pub entering : ℕ
  pub backing : ℕ
  pub holders : ℕ

abbrev pub initial : State
initial = record { counter = 1; entering = 0; backing = 0; holders = 0 }

-- All processes that are between the test and the release.
abbrev pub inside : State → ℕ
inside s = s.entering + s.backing + s.holders

-- A process holds the device if its open succeeded.
abbrev pub opened : Ret → ℕ
opened (ok n) = 1
opened (err e) = 0

pub data Step (g : Config) : State → State → Type 0 where
  finds_free :
      {s : State}
      → inside s + 2 < 2 ^ 32
      → (dec_and_test s.counter).0 ≡ true
      → Step g s (record s { counter = (dec_and_test s.counter).1; entering = s.entering + 1 })
  finds_busy :
      {s : State}
      → inside s + 2 < 2 ^ 32
      → (dec_and_test s.counter).0 ≡ false
      → Step g s (record s { counter = (dec_and_test s.counter).1; backing = s.backing + 1 })
  enters :
      {s : State} {n : ℕ} (u : Caller) (d : Statics) (m : Mem) (r : Ret × ℕ × Statics × Mem)
      → s.entering ≡ suc n
      → s_open_tested g u true s.counter d m ≡ done r
      → Step g s (record s { counter = r.1; entering = n; holders = s.holders + opened r.0 })
  backs_off :
      {s : State} {n : ℕ} (u : Caller) (d : Statics) (m : Mem) (r : Ret × ℕ × Statics × Mem)
      → s.backing ≡ suc n
      → s_open_tested g u false s.counter d m ≡ done r
      → Step g s (record s { counter = r.1; backing = n; holders = s.holders + opened r.0 })
  closes :
      {s : State} {n : ℕ}
      → s.holders ≡ suc n
      → Step g s (record s { counter = s_release s.counter; holders = n })

pub data Reach (g : Config) : State → Type 0 where
  here : Reach g initial
  next : {s t : State} → Reach g s → Step g s t → Reach g t

pub record Inv (s : State) : Type 0 where
  pub word : s.counter < 2 ^ 32
  pub few : inside s + 1 < 2 ^ 32
  pub counted : (s.counter + inside s) % 2 ^ 32 ≡ 1
  pub one : s.entering + s.holders ≤ 1

entered :
    (g : Config) (u : Caller) (n : ℕ) (d : Statics) (m : Mem) (r : Ret × ℕ × Statics × Mem)
    → s_open_tested g u true n d m ≡ done r
    → (r.1 ≡ n) × (opened r.0 ≡ 1)
unfolding s_open_tested
entered g u n d m r e =
    let (t, _, f) =
      bind-done (trim_if u.write_only g d.s_device m)
        (λ t. done (ok 0, n, record d { s_device = t.0 }, t.1)) e in
    let same = sym (done_injective f) in (ap (λ t. t.1) same, ap (λ t. opened t.0) same)

backed :
    (g : Config) (u : Caller) (n : ℕ) (d : Statics) (m : Mem) (r : Ret × ℕ × Statics × Mem)
    → s_open_tested g u false n d m ≡ done r
    → (r.1 ≡ atomic_inc n) × (opened r.0 ≡ 0)
unfolding s_open_tested
backed g u n d m r e =
    let same = sym (done_injective e) in (ap (λ t. t.1) same, ap (λ t. opened t.0) same)

free_means_none :
    (n k : ℕ)
    → n < 2 ^ 32
    → k + 1 < 2 ^ 32
    → (n + k) % 2 ^ 32 ≡ 1
    → (dec_and_test n).0 ≡ true
    → k ≡ 0
free_means_none n k h l e z = omega (arith, (==_iff ((n + (2 ^ 32 - 1)) % 2 ^ 32) 0).0 z)

Step-Inv : {g : Config} {s t : State} → Step g s t → Inv s → Inv t
unfolding s_release
Step-Inv (finds_free {s} l free) v =
    let none_in : inside s ≡ 0 =
      free_means_none s.counter (inside s) v.word (omega (arith, v)) (omega (arith, v)) free in
    record {
      word = omega (arith, v);
      few = omega (arith, l);
      counted = omega (arith, v);
      one = omega (arith, none_in);
    }
Step-Inv (finds_busy {s} l busy) v = record {
  word = omega (arith, v);
  few = omega (arith, l);
  counted = omega (arith, v);
  one = v.one;
}
Step-Inv (enters {s} {n} u d m r some_in e) v =
    let (same, holds) = entered _ u _ d m r e in
    record {
      word = omega (arith, v, same);
      few = omega (arith, v, holds);
      counted = omega (arith, v, same, holds);
      one = omega (arith, v, holds);
    }
Step-Inv (backs_off {s} {n} u d m r some_back e) v =
    let (back, holds) = backed _ u _ d m r e in
    record {
      word = omega (arith, v, back);
      few = omega (arith, v, holds);
      counted = omega (arith, v, back, holds);
      one = omega (arith, v, holds);
    }
Step-Inv (closes {s} {n} held) v = record {
  word = omega (arith, v);
  few = omega (arith, v);
  counted = omega (arith, v);
  one = omega (arith, v);
}

Reach-Inv : {g : Config} {s : State} → Reach g s → Inv s
Reach-Inv here = record { word = omega arith; few = omega arith; counted = refl; one = omega arith }
Reach-Inv (next p q) = Step-Inv q (Reach-Inv p)

-- However the steps of the processes interleave, with fewer than 2 ^ 32 - 1 of them: at most one
-- open of the single device has succeeded and not been released, an open finds it busy while one
-- has, and finds it free again when none has and every other open has finished.
pub single_exclusive :
    {g : Config} {s : State}
    → Reach g s
    → (s.holders ≤ 1)
      × (s.holders ≡ 1 → (dec_and_test s.counter).0 ≡ false)
      × (inside s ≡ 0 → (dec_and_test s.counter).0 ≡ true)
single_exclusive {g} {s} p =
    let v = Reach-Inv p in
    (omega (arith, v), (λ held. ground (arith, v, held)), (λ quiet. ground (arith, v, quiet)))
