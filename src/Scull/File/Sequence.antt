-- ===== src/Scull/File/Sequence.antt =====
-- The iterator of /proc/scullseq visits every device once, in order.
use linux_device_driver.Common.{
  ℕ, zero, suc, ◌+◌, ◌≡◌, ◌≤◌, ◌<◌, ap, Option, none, some, List, [], ◌∷◌, arith,
}
use linux_device_driver.Scull.File.{seq_start, seq_next}

-- The kernel's walk: it shows what the iterator hands out, until that is null.
pub seq_walk : ℕ → ℕ → ℕ → Option ℕ → List ℕ
seq_walk zero nr pos v = []
seq_walk (suc fuel) nr pos none = []
seq_walk (suc fuel) nr pos (some d) = let (pos', v) = seq_next nr pos in d ∷ seq_walk fuel nr pos' v

-- The numbers from `pos` on, `n` of them.
abbrev pub from : ℕ → ℕ → List ℕ
from pos zero = []
from pos (suc n) = pos ∷ from (suc pos) n

seq_start-none : (nr pos : ℕ) → nr ≤ pos → seq_start nr pos ≡ none
unfolding seq_start
seq_start-none nr pos h = ground arith

seq_start-some : (nr pos : ℕ) → pos < nr → seq_start nr pos ≡ some pos
unfolding seq_start
seq_start-some nr pos h = ground arith

seq_next-start : (nr pos : ℕ) → seq_next nr pos ≡ (suc pos, seq_start nr (suc pos))
unfolding seq_next seq_start
seq_next-start nr pos = ground arith

-- A walk that starts at a position shows each device from there on once, in order, and ends: one
-- round more than there are devices is enough.
pub seq_walk-from :
    (fuel nr pos n : ℕ)
    → pos + n ≡ nr
    → n < fuel
    → seq_walk fuel nr pos (seq_start nr pos) ≡ from pos n
unfolding seq_walk
seq_walk-from zero nr pos n e h = elim h [ ]
seq_walk-from (suc fuel) nr pos zero e h = rw (seq_start-none nr pos (omega arith))
seq_walk-from (suc fuel) nr pos (suc n) e h =
    rw (seq_start-some nr pos (omega arith), seq_next-start nr pos)
      (ap (λ t. pos ∷ t) (seq_walk-from fuel nr (suc pos) n (omega arith) (omega arith)))
