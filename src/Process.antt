-- ===== src/Process.antt =====
-- kernel/drivers/process/process.c: the table of processes. A process is named by its number in it.
pub mod Table
pub mod Name
pub mod Execve
mod Tests
use koiz_os.Base.{
  ℕ, zero, suc, ◌+◌, ◌-◌, ◌*◌, ◌/◌, ◌%◌, ◌^◌, Bool, true, false, not, ◌||◌, Option, none, some,
  List, [], ◌∷◌, ◌==◌, ltb, leb, if◌then◌else◌, get_or, replicate,
}
use koiz_os.Kernel.{Panic, Result, ok, panic, diverge, ◌>>=◌, ◌>>◌, panic_if}
use koiz_os.Kernel.Memory.{Memory, read32}
use koiz_os.Pmem.{Pmem, phys_block_size, alloc}
use koiz_os.Ramdisk.Slice.{slice}
use koiz_os.Strings.{strcpy}

abbrev pub process_name_size : ℕ
process_name_size = 16

abbrev pub max_processes : ℕ
max_processes = 64

pub data ProcessState : Type 0 where
  unused runnable running interruptable_sleep uninterruptable_sleep stopped zombie : ProcessState

-- `struct process`. The eight registers stand in the order of `struct process_registers`.
pub record Process : Type 0 where
  pub name : List ℕ
  pub pid : ℕ
  pub cpu_time_ms : ℕ
  pub current_priority : ℕ
  pub state : ProcessState
  pub killed : ℕ
  pub registers : List ℕ
  pub process_memory_start : ℕ
  pub process_memory_size : ℕ

abbrev pub Processes : Type 0
Processes = ℕ → Process

abbrev pub set_process : Processes → ℕ → Process → Processes
set_process processes pid p k = if k == pid then p else processes k

abbrev pub is_unused : ProcessState → Bool
is_unused unused = true
is_unused _ = false

-- `process_get`; a pointer to a process is its number.
unfoldable pub get : ℕ → Processes → Option ℕ
get pid processes =
    if leb pid 0 || leb max_processes pid
    then none
    else (if is_unused (processes pid).state then none else some pid)

-- A process at 32, with its name and behind it the four bytes of its number, and a string at 64.
abbrev pub process_memory : Process → List ℕ → Memory
process_memory p text a =
    if ltb a 48
    then get_or p.name (a - 32) 0
    else (if ltb a 52 then p.pid / 2 ^ (8 * (a - 48)) % 2 ^ 8 else get_or text (a - 64) 0)

-- `strcpy` of a string to the name of a process.
pub copy_name : List ℕ → Process → Process
copy_name text p =
    let (dst, mem) = strcpy 32 64 process_name_size (process_memory p text) in
    record p { name = slice mem 32 process_name_size; pid = read32 mem 48 }

-- `process_init_process`
unfoldable pub init_process : List ℕ → ℕ → Processes → Pmem → Result (Processes × Pmem)
init_process process_name pid processes pm = do
  let p = record (copy_name process_name (processes pid)) {
    current_priority = 0;
    cpu_time_ms = 0;
    killed = 0;
    registers = replicate 8 0;
  }
  panic_if (not (p.process_memory_start == 0)) Panic.process_memory_leak
  (page, pm') ← alloc pm
  ok (
    set_process processes pid
        (record p { process_memory_start = page; process_memory_size = phys_block_size }),
    pm',
  )

-- The loop of `process_init`: the rounds left, then `i`.
unfoldable pub clear : ℕ → ℕ → Processes → Processes
clear zero i processes = processes
clear (suc n) i processes = clear n (i + 1) (
    set_process processes i
      (record (processes i) { pid = i; state = unused; process_memory_start = 0 }))

-- "Idle"
abbrev idle_process_name : List ℕ
idle_process_name = 73 ∷ 100 ∷ 108 ∷ 101 ∷ []

unfoldable pub init : Processes → Pmem → Result (Processes × Pmem)
init processes pm = do
  (processes', pm') ← init_process idle_process_name 0 (clear max_processes 0 processes) pm
  ok (set_process processes' 0 (record (processes' 0) { state = runnable }), pm')

-- The loop of `process_get_next_free_pid`: the rounds left, then `i`. There is none for -1.
pub next_free_pid : ℕ → ℕ → Processes → Option ℕ
next_free_pid zero i processes = none
next_free_pid (suc n) i processes =
    let rest = next_free_pid n (i + 1) processes in
    if is_unused (processes i).state then some i else rest

pub get_next_free_pid : Processes → Option ℕ
get_next_free_pid = next_free_pid (max_processes - 1) 1

-- `process_kill` marks the process.
unfoldable kill : ℕ → Processes → Processes
kill pid processes = set_process processes pid (record (processes pid) { killed = 1 })

-- `process_state_to_str`: "Unused", "Runnable", "Running", "Interruptable Sleep", "Uninterruptable Sleep",
-- "Stopped", "Zombie".
unfoldable state_to_str : ProcessState → List ℕ
state_to_str unused = 85 ∷ 110 ∷ 117 ∷ 115 ∷ 101 ∷ 100 ∷ []
state_to_str runnable = 82 ∷ 117 ∷ 110 ∷ 110 ∷ 97 ∷ 98 ∷ 108 ∷ 101 ∷ []
state_to_str running = 82 ∷ 117 ∷ 110 ∷ 110 ∷ 105 ∷ 110 ∷ 103 ∷ []
state_to_str interruptable_sleep =
    73 ∷ 110 ∷ 116 ∷ 101 ∷ 114 ∷ 114 ∷ 117 ∷ 112 ∷ 116 ∷ 97 ∷ 98 ∷ 108 ∷ 101 ∷ 32 ∷ 83 ∷ 108 ∷ 101
    ∷ 101 ∷ 112 ∷ []
state_to_str uninterruptable_sleep =
    85 ∷ 110 ∷ 105 ∷ 110 ∷ 116 ∷ 101 ∷ 114 ∷ 114 ∷ 117 ∷ 112 ∷ 116 ∷ 97 ∷ 98 ∷ 108 ∷ 101 ∷ 32 ∷ 83
    ∷ 108 ∷ 101 ∷ 101 ∷ 112 ∷ []
state_to_str stopped = 83 ∷ 116 ∷ 111 ∷ 112 ∷ 112 ∷ 101 ∷ 100 ∷ []
state_to_str zombie = 90 ∷ 111 ∷ 109 ∷ 98 ∷ 105 ∷ 101 ∷ []

-- A line of `process_printlist`, before its texts are padded.
pub record ProcessLine : Type 0 where
  pub number : ℕ
  pub name : List ℕ
  pub state : List ℕ
  pub time : ℕ
  pub memory : ℕ

-- What `process_printlist` prints of the processes: the rounds left, then `i`.
pub printlist : ℕ → ℕ → Processes → List ProcessLine
printlist zero i processes = []
printlist (suc n) i processes =
    let rest = printlist n (i + 1) processes in
    let p = processes i in
    if is_unused p.state
    then rest
    else record {
      number = i;
      name = p.name;
      state = state_to_str p.state;
      time = p.cpu_time_ms;
      memory = p.process_memory_start;
    }
      ∷ rest
