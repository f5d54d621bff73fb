-- ===== src/Kernel/Samples.antt =====
-- Kernels for the tests: one that grants every request, and one that grants none.
use linux_device_driver.Common.{true, false, refl, replicate, length-replicate}
use linux_device_driver.Kernel.{Kernel, Call, Mem}

-- Blocks are zeroed, and every user copy is whole.
abbrev pub generous : Kernel
generous = record {
  grants = λ n. true;
  junk = λ n size. replicate size 0;
  length-junk = λ n size. length-replicate size 0;
  copied = λ left src. src;
  length-copied = λ left src. refl;
  copied_all = λ src. refl;
}

abbrev pub exhausted : Kernel
exhausted = record generous { grants = λ n. false }

-- A call that no signal interrupts, and whose user copy is whole.
abbrev pub smooth : Call
smooth = record { interrupted = false; left = 0 }

abbrev pub fresh_mem : Mem
fresh_mem = record { requests = 0; allocs = 0; frees = 0 }
