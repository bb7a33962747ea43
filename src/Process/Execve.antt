-- ===== src/Process/Execve.antt =====
-- `process_execve` (kernel/drivers/process/process.c): a program from the disk into a new process.
use koiz_os.Base.{
  ℕ, ◌+◌, ◌<◌, ◌≡◌, ◌≢◌, Bool, true, false, none, some, List, [], ◌∷◌, ◌==◌, if◌then◌else◌, arith,
  refl, ◌*◌, add32, Bool-cases, inl, inr,
}
use koiz_os.Kernel.{Result, ok, ◌>>=◌}
use koiz_os.Kernel.Memory.{Memory, write8}
use koiz_os.Ramdisk.{Ramdisk, success, error_out_of_bounds, error_overflow, read}
use koiz_os.Ramdisk.Slice.{slice, read_returns}
use koiz_os.Fat16.Device.{IsDisk, view, read_into-slice}
use koiz_os.Fat16.Search.{first_lt, entry_named, file_exists-first}
use koiz_os.Fat16.Lookup.{entry_of}
use koiz_os.Fat16.Record.{decode}
use koiz_os.Process.Table.{get-live}
use koiz_os.Sched.Queues.{Queues, Implements, add}
use koiz_os.Sched.Add.{Fresh, addpid-Implements}
use koiz_os.Fat16.{
  root_addr, read_into, read_sector, first_data_sector, FatStatus, doesnt_exist, fat_success,
  file_read,
}
use koiz_os.Fs.{fs_file_exists, fs_file_read}
use koiz_os.Sched.{Sched, addpid}
use koiz_os.Process.{
  Processes, ProcessState, unused, runnable, set_process, init_process, get_next_free_pid, get,
  is_unused, max_processes,
}

-- The parts of the kernel that take part.
pub record System : Type 0 where
  pub processes : Processes
  pub sched : Sched
  pub disk : Ramdisk

-- A buffer is filled.
unfoldable pub store : ℕ → List ℕ → Memory → Memory
store at [] mem = mem
store at (b ∷ bytes) mem = store (add32 at 1) bytes (write8 mem at b)

abbrev set_state : Processes → ℕ → ProcessState → Processes
set_state processes pid state = set_process processes pid (record (processes pid) { state = state })

abbrev with_memory : Ramdisk → Memory → Ramdisk
with_memory d mem = record d { pmem = record (d.pmem) { mem = mem } }

-- `fs_file_read` of the first sector to the address `start`.
unfoldable pub load : List ℕ → List ℕ → ℕ → Ramdisk → Result (FatStatus × Ramdisk)
load junk file_name start d = do
  (res, bytes) ← fs_file_read junk file_name (slice d.pmem.mem start 512) 0 d
  ok (res, with_memory d (store start bytes d.pmem.mem))

abbrev is_success : FatStatus → Bool
is_success fat_success = true
is_success _ = false

-- `process_execve` from the memory of the process on. The state that a failed read sets is overwritten.
pub start_process : List ℕ → List ℕ → ℕ → System → Result (ℕ × System)
start_process junk file_name pid k = do
  (res, d) ← load junk file_name (k.processes pid).process_memory_start k.disk
  let stopped = if is_success res then k.processes else set_state k.processes pid unused
  let started = set_state stopped pid runnable
  sched ← addpid started pid k.sched
  ok (1, record { processes = started; sched = sched; disk = d })

-- The result is 1 for a process that was started, else 0.
pub execve : List ℕ → List ℕ → System → Result (ℕ × System)
execve junk file_name k = do
  found ← fs_file_exists junk file_name k.disk
  if found == 0 then ok (0, k) else elim (get_next_free_pid k.processes) [
    | none ↦ ok (0, k)
    | some pid ↦ do
      (processes, pm) ← init_process file_name pid k.processes k.disk.pmem
      let k1 = record k { processes = processes; disk = record (k.disk) { pmem = pm } }
      if (processes pid).process_memory_start == 0
          then ok (0, record k1 { processes = set_state processes pid unused })
          else start_process junk file_name pid k1
  ]

read_into_returns :
    (old : List ℕ) (s n : ℕ) {d : Ramdisk}
    → IsDisk d
    → (bytes : List ℕ) × (read_into old s n d ≡ ok bytes)
unfolding read_into
read_into_returns old s n {d} disk =
    let ((status, bytes), e) = read_returns d s n (omega (arith, disk.sized)) in
    elim status
        as (λ status.
          read d s n ≡ ok (status, bytes) → (bytes : List ℕ) × (read_into old s n d ≡ ok bytes)) [
            | success ↦ λ e. (bytes, rw e refl)
            | error_out_of_bounds ↦ λ e. (old, rw e refl)
            | error_overflow ↦ λ e. (old, rw e refl)
          ]
      e

file_read_returns :
    (junk file_name old : List ℕ) {d : Ramdisk}
    → IsDisk d
    → (out : FatStatus × List ℕ) × (file_read junk file_name old 0 d ≡ ok out)
unfolding file_read read_sector
file_read_returns junk file_name old {d} disk =
    let r = entry_of file_name d in
    let hr = first_lt (entry_named file_name (view d)) 31 1 (omega arith) in
    let exists = file_exists-first junk file_name disk in
    elim (Bool-cases (r == 0)) [
      | inl absent ↦ rw (exists, absent) ((doesnt_exist, old), refl)
      | inr found ↦
          let entry = slice (view d) (root_addr r) 32 in
          let (bytes, e) =
            read_into_returns old ((first_data_sector + (decode entry).low_cluster) * 512) 512
              disk in
          rw (exists, found, read_into-slice junk (root_addr r) 32 disk (omega arith))
            (rw e ((fat_success, bytes), refl))
    ]

load_returns :
    (junk file_name : List ℕ) (start : ℕ) {d : Ramdisk}
    → IsDisk d
    → (out : FatStatus × Ramdisk) × (load junk file_name start d ≡ ok out)
unfolding load fs_file_read
load_returns junk file_name start {d} disk =
    let ((res, bytes), e) = file_read_returns junk file_name (slice d.pmem.mem start 512) disk in
    ((res, with_memory d (store start bytes d.pmem.mem)), rw e refl)

set_state_live :
    (processes : Processes) (pid : ℕ)
    → is_unused (set_state processes pid runnable pid).state ≡ false
set_state_live processes pid = let self : (pid == pid) ≡ true = ground arith in rw self refl

-- The processes with the new one started, whatever the read returned.
abbrev started : FatStatus → ℕ → Processes → Processes
started res pid processes =
    set_state (if is_success res then processes else set_state processes pid unused) pid runnable

start_process-steps :
    (junk file_name : List ℕ) (pid : ℕ) (k : System) (res : FatStatus) (d : Ramdisk) (s : Sched)
    → load junk file_name (k.processes pid).process_memory_start k.disk ≡ ok (res, d)
    → addpid (started res pid k.processes) pid k.sched ≡ ok s
    → start_process junk file_name pid k
      ≡ ok (1, record { processes = started res pid k.processes; sched = s; disk = d })
unfolding start_process
start_process-steps junk file_name pid k res d s e1 e2 = rw e1 (rw e2 refl)

-- A process with a number from 1 to 63 that is not scheduled yet is started, whatever reading its
-- program returned: it is in use, and at the head of the highest queue. The disk has 1024 pages
-- that do not overlap, and the scheduler's lists hold its queues.
pub start_process-runs :
    (junk file_name : List ℕ) (pid : ℕ) (k : System) (a : Queues)
    → IsDisk k.disk
    → 0 < pid
    → pid < max_processes
    → Implements k.sched a
    → Fresh pid a
    → (k' : System) × (start_process junk file_name pid k ≡ ok (1, k'))
      × (get pid k'.processes ≡ some pid)
      × Implements k'.sched (add pid a)
start_process-runs junk file_name pid k a disk lo hi imp fresh =
    let ((res, d), e1) = load_returns junk file_name (k.processes pid).process_memory_start disk in
    let live = get-live pid (started res pid k.processes) lo hi (
      set_state_live (if is_success res then k.processes else set_state k.processes pid unused)
        pid) in
    let (s, e2, imp') =
      addpid-Implements pid a k.sched (started res pid k.processes) pid imp live fresh in
    (
      record { processes = started res pid k.processes; sched = s; disk = d },
      start_process-steps junk file_name pid k res d s e1 e2,
      live,
      imp',
    )

-- On a disk of 1024 pages that do not overlap, a program that is not on the disk, and a program
-- when all numbers are in use, is refused, and nothing changes.
execve_refused :
    (junk file_name : List ℕ) (k : System)
    → IsDisk k.disk
    → (entry_of file_name k.disk ≡ 0 → execve junk file_name k ≡ ok (0, k))
      × (entry_of file_name k.disk ≢ 0
          → get_next_free_pid k.processes ≡ none
          → execve junk file_name k ≡ ok (0, k))
unfolding execve fs_file_exists
execve_refused junk file_name k disk =
    let exists = file_exists-first junk file_name disk in
    (
      λ absent.
          let test : (entry_of file_name k.disk == 0) ≡ true = ground (arith, absent) in
          rw (exists, test) refl,
      λ there full.
          let test : (entry_of file_name k.disk == 0) ≡ false = ground (arith, there) in
          rw (exists, test, full) refl,
    )
