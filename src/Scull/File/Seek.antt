-- ===== src/Scull/File/Seek.antt =====
-- `scull_llseek` on signed offsets.
use linux_device_driver.Common.{ℕ, ◌+◌, ◌-◌, ◌^◌, ◌≡◌, ◌≤◌, ◌<◌, arith}
use linux_device_driver.Kernel.{einval, ok, err}
use linux_device_driver.Scull.File.{llseek}

-- SEEK_SET, SEEK_CUR and SEEK_END, with the position that each counts from.
pub data Whence : Type 0 where
  set cur end : Whence

abbrev pub number : Whence → ℕ
number set = 0
number cur = 1
number end = 2

abbrev pub base : Whence → ℕ → ℕ → ℕ
base set size f_pos = 0
base cur size f_pos = f_pos
base end size f_pos = size

-- A seek forward by `d`, and back by `d`, from where `whence` says. It goes there if that is no
-- negative number, and else answers `-EINVAL` and moves nothing. Sizes and positions are below
-- 2 ^ 62, so that no sum overflows.
pub llseek_lem :
    (w : Whence) (size f_pos d : ℕ)
    → size < 2 ^ 62
    → f_pos < 2 ^ 62
    → 0 < d
    → d < 2 ^ 62
    → (llseek size f_pos d (number w) ≡ (ok (base w size f_pos + d), base w size f_pos + d))
      × (d ≤ base w size f_pos
          → llseek size f_pos (2 ^ 64 - d) (number w)
            ≡ (ok (base w size f_pos - d), base w size f_pos - d))
      × (base w size f_pos < d → llseek size f_pos (2 ^ 64 - d) (number w) ≡ (err einval, f_pos))
unfolding llseek
llseek_lem set size f_pos d hs hp h0 hd =
    (ground arith, λ h. absurd (omega arith), λ h. ground arith)
llseek_lem cur size f_pos d hs hp h0 hd = (ground arith, λ h. ground arith, λ h. ground arith)
llseek_lem end size f_pos d hs hp h0 hd = (ground arith, λ h. ground arith, λ h. ground arith)

-- Whatever the offset and the origin, the file's position is no negative number afterwards.
pub llseek_position :
    (size f_pos off whence : ℕ) → f_pos < 2 ^ 63 → (llseek size f_pos off whence).1 < 2 ^ 63
unfolding llseek
llseek_position size f_pos off whence h = ground arith
