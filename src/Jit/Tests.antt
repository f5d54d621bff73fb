-- ===== src/Jit/Tests.antt =====
-- The timer and the tasklet at concrete times.
use linux_device_driver.Common.{ℕ, true, false, refl, List, [], ◌∷◌, ◌++◌}
use linux_device_driver.Kernel.Samples.{generous, fresh_mem}
use linux_device_driver.Jit.{jit_timer, jit_tasklet}
use linux_device_driver.Jit.Wakes.{Reader, jit_wakes}

abbrev early_ticks : List ℕ
early_ticks = 110 ∷ 120 ∷ []

abbrev ticks : List ℕ
ticks = 130 ∷ 140 ∷ 150 ∷ []

jit_wakes_example :
    Reader fresh_mem 100
      (early_ticks ++ ticks)
      (jit_timer generous 10 100 early_ticks ticks false fresh_mem)
    × Reader fresh_mem 100
        (early_ticks ++ ticks)
        (jit_tasklet generous 100 true early_ticks ticks false fresh_mem)
jit_wakes_example = jit_wakes generous 10 100 true early_ticks ticks fresh_mem refl
