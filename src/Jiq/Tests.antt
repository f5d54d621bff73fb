-- ===== src/Jiq/Tests.antt =====
-- The work queue files on a page of 256 bytes, with rows of 50 bytes.
use linux_device_driver.Common.{ℕ, ◌≡◌, ◌≤◌, ◌<◌, ◌⊎◌, true, false, some, refl, arith}
use linux_device_driver.Jiq.{Client, limit, jiq_print, jiq_print_wq, run_work, jiq_read}
use linux_device_driver.Jiq.Ends.{jiq_read-ends}

jiq_read-ends_example :
    (256 < 300 → (r : ℕ × Client) × (jiq_read 256 (λ i. i) (λ i. 50) false 300 10 0 ≡ some r))
    × ((n : ℕ) (d : Client)
        → jiq_read 256 (λ i. i) (λ i. 50) false 300 10 0 ≡ some (n, d)
        → (n ≤ 256)
          × (((d.queued ≡ false) × (limit 256 < n)) ⊎ ((d.queued ≡ true) × (false ≡ true))))
jiq_read-ends_example =
    jiq_read-ends 256 (λ i. i) (λ i. 50) 50
      (record { some_bytes = λ n. omega arith; few_bytes = λ n. omega arith }) (omega arith)
      (omega arith) false 300 10 0

-- A heading and two rows; and a signal after the first row.
jiq_read_run :
    jiq_read 256 (λ i. i) (λ i. 50) false 5 10 0
    ≡ some (142, record { len = 142; jiffies = 1; delay = 10; queued = false; awake = true })
unfolding jiq_read run_work jiq_print_wq jiq_print
jiq_read_run = refl

signal_after_a_row :
    jiq_read 256 (λ i. i) (λ i. 50) true 1 10 0
    ≡ some (92, record { len = 92; jiffies = 0; delay = 10; queued = true; awake = false })
unfolding jiq_read run_work jiq_print_wq jiq_print
signal_after_a_row = refl
