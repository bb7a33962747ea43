-- ===== src/Process/Tests.antt =====
-- The theorems on process.c at a table with two processes in use.
use koiz_os.Base.{
  ℕ, zero, suc, ◌≢◌, ◌-◌, ◌%◌, ◌^◌, ◌∷◌, List, length, get_or, refl, arith, ◌≡◌, ◌<◌, ◌≤◌, none,
  some, [], if◌then◌else◌, ltb, replicate,
}
use koiz_os.Process.{Processes, runnable, unused, copy_name, get}
use koiz_os.Kernel.{ok}
use koiz_os.Fat16.Example.{disk, disk-IsDisk}
use koiz_os.Sched.{Sched, init}
use koiz_os.Sched.Queues.{Implements, add}
use koiz_os.Sched.Reach.{no_queues, init-Implements}
use koiz_os.Process.Execve.{System, start_process, start_process-runs}
use koiz_os.Process.Name.{IsName, copy_name-pid}

abbrev two_processes : Processes
two_processes k = record {
  name = [];
  pid = k;
  cpu_time_ms = 0;
  current_priority = 0;
  state = if ltb k 2 then runnable else unused;
  killed = 0;
  registers = replicate 8 0;
  process_memory_start = 0;
  process_memory_size = 0;
}

abbrev letter : ℕ
letter = 65

-- A name of 16 characters.
abbrev long_name : List ℕ
long_name = replicate 16 letter

long_name-char : (n i : ℕ) → i < n → get_or (replicate n letter) i 0 ≢ 0
long_name-char zero i h = absurd (omega arith)
long_name-char (suc n) zero h = omega arith
long_name-char (suc n) (suc i) h = long_name-char n i (omega arith)

long_name-IsName : IsName long_name
long_name-IsName = (λ i h. long_name-char 16 i h, omega arith)

copy_name-pid_example :
    (length long_name < 16 → (copy_name long_name (two_processes 2)).pid ≡ 2)
    × (16 ≤ length long_name → (copy_name long_name (two_processes 2)).pid ≡ 2 - 2 % 2 ^ 8)
copy_name-pid_example = copy_name-pid (two_processes 2) long_name long_name-IsName (omega arith)

abbrev blank : Sched
blank = record {
  proc_list = λ k. record { ptr = none; priority = 0; tickets_remaining = 0; next_process = none };
  proc_priority_list = λ p. none;
  current_process = none;
}

abbrev system : System
system = record { processes = two_processes; sched = init blank; disk = disk }

start_process-runs_example :
    (k' : System) × (start_process [] (65 ∷ []) 2 system ≡ ok (1, k'))
    × (get 2 k'.processes ≡ some 2)
    × Implements k'.sched (add 2 (no_queues blank))
start_process-runs_example =
    start_process-runs [] (65 ∷ []) 2 system (no_queues blank) disk-IsDisk (omega arith)
      (omega arith) (init-Implements blank refl) (λ p hp. refl)
