-- ===== src/Vmem/Tests.antt =====
-- The theorems on vmem.c at a concrete memory of 1280 pages.
use koiz_os.Base.{ℕ, ◌<◌, ◌≡◌, ◌⊎◌, true, none, arith, u32_mod, refl}
use koiz_os.Kernel.{ok, panic, Panic}
use koiz_os.Pmem.{Pmem}
use koiz_os.Pmem.Valid.{IsValid}
use koiz_os.Vmem.{init, get_phys_addr}
use koiz_os.Vmem.Translate.{init_identity}

abbrev five_mb : Pmem
five_mb = record {
  initialized = true;
  main_memory_start = 0x100000;
  main_memory_length = 0x500000;
  alloc_start = 0x102000;
  mgr_reserved_size = 1280;
  curr_alloc_record = 0;
  mbd = none;
  kernel_reserved_end_addr = 0x100000;
  mem = λ a. 0;
}

five_mb-IsValid : IsValid five_mb
five_mb-IsValid = ground arith

unmapped : get_phys_addr (λ a. 0) 0x5000 0x1234 ≡ ok 0
unfolding get_phys_addr koiz_os.Kernel.Memory.read32
unmapped = refl

init_identity_example :
    ((base : ℕ) × (pm' : Pmem) × (init five_mb ≡ ok (base, pm'))
      × ((v : ℕ) → v < u32_mod → get_phys_addr pm'.mem base v ≡ ok v))
    ⊎ (init five_mb ≡ panic Panic.pmem_out_of_memory)
init_identity_example = init_identity five_mb-IsValid
