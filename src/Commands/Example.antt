-- ===== src/Commands/Example.antt =====
-- A kernel for tests of the shell and its commands: an empty disk, a heap with one free entry at
-- 0x7000, the names of the commands from 0x5000 on, the file name `a` at 0x5090 and the contents
-- `hi` at 0x50A0.
use koiz_os.Base.{
  ℕ, ◌+◌, ◌-◌, ◌*◌, ◌/◌, ◌%◌, ◌<◌, ◌≡◌, leb, ltb, ◌&&◌, arith, refl, none, List, [], ◌∷◌,
  if◌then◌else◌, get_or, replicate,
}
use koiz_os.Base.Text.{codes}
use koiz_os.Kernel.Memory.{Memory, read32}
use koiz_os.Ramdisk.{Ramdisk}
use koiz_os.Ramdisk.Access.{block}
use koiz_os.Fat16.Device.{IsDisk}
use koiz_os.Fat16.Example as Base
use koiz_os.Malloc.Example.{slab}
use koiz_os.Process.{Processes, unused}
use koiz_os.Sched.{Sched}
use koiz_os.Commands.{World, Junk}

abbrev name_list : List (List ℕ)
name_list =
    codes "ls"
    ∷ codes "write"
    ∷ codes "read"
    ∷ codes "slabinfo"
    ∷ codes "free"
    ∷ codes "ps"
    ∷ codes "exec"
    ∷ codes "execbg"
    ∷ codes "sched"
    ∷ codes "a"
    ∷ codes "hi"
    ∷ []

abbrev pub kernel_memory : Memory
kernel_memory a =
    if leb 0x5000 a && ltb a 0x50B0
    then get_or (get_or name_list ((a - 0x5000) / 16) []) ((a - 0x5000) % 16) 0
    else Base.disk.pmem.mem a

pub kernel_memory-block : (k : ℕ) → k < 1024 → block kernel_memory 0x1000 k ≡ 0x100000 + 4096 * k
unfolding read32
kernel_memory-block k h = ground arith

abbrev pub disk : Ramdisk
disk = record (Base.disk) { pmem = record (Base.disk.pmem) { mem = kernel_memory } }

pub disk-IsDisk : IsDisk disk
disk-IsDisk = record {
  sized = refl;
  layout = record {
    few = omega arith;
    room = omega arith;
    inside = λ k h. omega (arith, kernel_memory-block k h);
    off_table = λ k h. omega (arith, kernel_memory-block k h);
    apart = λ k l hk hl ne. omega (arith, kernel_memory-block k hk, kernel_memory-block l hl, ne);
  };
}

abbrev pub processes : Processes
processes k = record {
  name = [];
  pid = k;
  cpu_time_ms = 0;
  current_priority = 0;
  state = unused;
  killed = 0;
  registers = replicate 8 0;
  process_memory_start = 0;
  process_memory_size = 0;
}

abbrev pub sched : Sched
sched = record {
  proc_list = λ k. record { ptr = none; priority = 0; tickets_remaining = 0; next_process = none };
  proc_priority_list = λ p. none;
  current_process = none;
}

abbrev pub world : World
world = record {
  system = record { processes = processes; sched = sched; disk = disk };
  slabs = slab ∷ [];
  printed = [];
}

abbrev pub junk : Junk
junk = record {
  bytes = [];
  entry = record {
    entry_name = [];
    attrib = 0;
    reserved = 0;
    creation_time_tenth_secs = 0;
    creation_time = 0;
    creation_date = 0;
    last_accessed_date = 0;
    high_cluster = 0;
    last_mod_time = 0;
    last_mod_date = 0;
    low_cluster = 0;
    file_size = 0;
  };
}
