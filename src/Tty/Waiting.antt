-- ===== src/Tty/Waiting.antt =====
-- TIOCMIWAIT: when a caller that waits for a change of a line returns.
use linux_device_driver.Common.{
  ◌≡◌, inl, inr, true, false, List, [], ◌∷◌, ◌++◌, refl, sym, ap, some, Bool-cases, All,
}
use linux_device_driver.Kernel.{ok}
use linux_device_driver.Kernel.Clash.{none-ne-some, some_injective, ok-ne-err}
use linux_device_driver.Tty.{Icount, Wanted, Wake, unchanged, wanted_change, miwait}

-- The counters that the caller saw last.
abbrev pub last_seen : Icount → List Wake → Icount
last_seen prev [] = prev
last_seen prev (k ∷ ks) = last_seen k.now ks

abbrev pub Quiet : Wake → Type 0
Quiet k = k.signal ≡ false

-- A wake-up at which a wanted counter differs from what was seen last, with no signal until then.
pub record Noticed (w : Wanted) (prev : Icount) (ks : List Wake) : Type 0 where
  pub before : List Wake
  pub at : Wake
  pub after : List Wake
  pub split : ks ≡ before ++ at ∷ after
  pub quiet : All Quiet before
  pub quiet_at : Quiet at
  pub change : wanted_change w at.now (last_seen prev before) ≡ true

-- A caller that returns with success was woken without a signal, then or before, and found a
-- counter that it waits for changed since it last looked.
pub miwait-Noticed :
    (w : Wanted) (ks : List Wake) (prev : Icount)
    → miwait w ks prev ≡ some (ok 0)
    → Noticed w prev ks
unfolding miwait
miwait-Noticed w [] prev e = absurd (none-ne-some (ok 0) e)
miwait-Noticed w (k ∷ ks) prev e = elim (Bool-cases k.signal) [
  | inl s ↦ absurd (ok-ne-err (sym (some_injective (simp s at e))))
  | inr s ↦ elim (Bool-cases (unchanged k.now prev)) [
    | inl same ↦ absurd (ok-ne-err (sym (some_injective (simp (s, same) at e))))
    | inr differs ↦ elim (Bool-cases (wanted_change w k.now prev)) [
      | inl hit ↦ record {
        before = [];
        at = k;
        after = ks;
        split = refl;
        quiet = tt;
        quiet_at = s;
        change = hit;
      }
      | inr miss ↦
          let later = miwait-Noticed w ks k.now (simp (s, differs, miss) at e) in
          record {
            before = k ∷ later.before;
            at = later.at;
            after = later.after;
            split = ap (λ t. k ∷ t) later.split;
            quiet = (s, later.quiet);
            quiet_at = later.quiet_at;
            change = later.change;
          }
    ]
  ]
]
