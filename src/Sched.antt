-- ===== src/Sched.antt =====
-- kernel/drivers/process/sched.c: a feedback scheduler with three queues of processes, linked through
-- the entries of a fixed array. A pointer into the array is the number of its entry.
pub mod Members
pub mod Links
pub mod Queues
pub mod Refine
pub mod Move
pub mod Charge
pub mod Top
pub mod Choose
pub mod Tick
pub mod Add
pub mod Kept
pub mod Reach
pub mod Print
pub mod Turns
pub mod Fair
mod Tests
use koiz_os.Base.{
  ℕ, zero, suc, ◌+◌, ◌-◌, Bool, true, false, not, Option, none, some, List, [], ◌∷◌, ◌==◌, ltb,
  if◌then◌else◌,
}
use koiz_os.Kernel.{Panic, Result, ok, panic, diverge, ◌>>=◌, ◌>>◌, panic_if}
use koiz_os.Process.{Processes, max_processes, get}

abbrev pub max_priority_queues : ℕ
max_priority_queues = 3

abbrev pub starting_tickets : ℕ
starting_tickets = 2000

abbrev pub full_timeslice_cost : ℕ
full_timeslice_cost = 10

-- `ptr` is the number of a process. The tickets are never left negative.
pub record MlfqEntry : Type 0 where
  pub ptr : Option ℕ
  pub priority : ℕ
  pub tickets_remaining : ℕ
  pub next_process : Option ℕ

-- The static variables of sched.c.
pub record Sched : Type 0 where
  pub proc_list : ℕ → MlfqEntry
  pub proc_priority_list : ℕ → Option ℕ
  pub current_process : Option ℕ

-- A write to an array.
abbrev pub update_at {ℓ} : {A : Type ℓ} → (ℕ → A) → ℕ → A → ℕ → A
update_at f i v k = if k == i then v else f k

unfoldable pub init : Sched → Sched
init s = record s {
  proc_priority_list = update_at (update_at (update_at s.proc_priority_list 0 none) 1 none) 2 none;
}

pub addpid : Processes → ℕ → Sched → Result Sched
addpid processes pid s = elim (get pid processes) [
  | none ↦ panic Panic.sched_null_process
  | some ptr ↦ ok (record s {
    proc_list = update_at s.proc_list pid (record {
      ptr = some ptr;
      priority = 0;
      tickets_remaining = starting_tickets;
      next_process = s.proc_priority_list 0;
    });
    proc_priority_list = update_at s.proc_priority_list 0 (some pid);
  })
]

-- The loop that looks for a queue that is not empty: the rounds left, `i`, and the result so far.
pub first_head : ℕ → ℕ → Option ℕ → Sched → Option ℕ
first_head zero i found s = found
first_head (suc n) i found s =
    let rest = first_head n (i + 1) found s in
    elim (s.proc_priority_list i) [ none ↦ rest | some head ↦ some head ]

abbrev pub points_to : Option ℕ → ℕ → Bool
points_to none c = false
points_to (some k) c = k == c

-- The loop of `sched_update` that takes the entry `c` from behind the head of its queue.
pub unlink : ℕ → Option ℕ → ℕ → Sched → Result Sched
unlink zero curr c s = diverge
unlink (suc fuel) none c s = panic Panic.sched_not_found
unlink (suc fuel) (some curr) c s =
    let entry = s.proc_list curr in
    let rest = unlink fuel entry.next_process c s in
    if points_to entry.next_process c
    then ok (record s {
      proc_list =
          update_at s.proc_list curr (record entry { next_process = (s.proc_list c).next_process });
    })
    else rest

-- Adding the entry `c` to a queue.
pub push : ℕ → ℕ → Sched → Sched
push newprior c s = record s {
  proc_list = update_at s.proc_list c (record (s.proc_list c) {
    priority = newprior;
    tickets_remaining = starting_tickets;
    next_process = s.proc_priority_list newprior;
  });
  proc_priority_list = update_at s.proc_priority_list newprior (some c);
}

-- Bumping the entry `c` down the queues. A queue has at most `max_processes` entries.
pub demote : ℕ → Sched → Result Sched
demote c s =
    let cprior = (s.proc_list c).priority in
    elim (s.proc_priority_list cprior) [
      | none ↦ panic Panic.sched_no_head
      | some head ↦ do
        s1 ←
            (if head == c
              then ok (record s {
                proc_priority_list =
                    update_at s.proc_priority_list cprior ((s.proc_list c).next_process);
              })
              else unlink (max_processes + 1) (some head) c s)
        let newprior = (s1.proc_list c).priority + 1
        panic_if (not (ltb newprior max_priority_queues)) Panic.sched_bad_priority
        ok (push newprior c s1)
    ]

-- The current process pays for its time slice.
pub charge : ℕ → Sched → Result Sched
charge c s =
    let entry = s.proc_list c in
    let paid = record s {
      proc_list =
          update_at s.proc_list c
            (record entry { tickets_remaining = entry.tickets_remaining - full_timeslice_cost });
    } in
    if ltb entry.tickets_remaining full_timeslice_cost
    then (if ltb entry.priority (max_priority_queues - 1) then demote c paid else ok paid)
    else ok paid

-- The scenarios 3 and 4: the next process in line, or the head of the queue.
pub next_in_line : ℕ → Sched → Option ℕ
next_in_line c s = elim ((s.proc_list c).next_process) [
  | some next ↦ some next
  | none ↦ elim (s.proc_priority_list ((s.proc_list c).priority)) [
    | some head ↦ some head
    | none ↦ some c
  ]
]

-- Scenario 2: a process of higher priority, if there is one.
pub choose : ℕ → Sched → Option ℕ
choose c s =
    let other = next_in_line c s in
    elim (first_head max_priority_queues 0 (some c) s) [
      | none ↦ other
      | some new_process ↦
          if (s.proc_list c).priority == 0
          then other
          else (if ltb (s.proc_list new_process).priority (s.proc_list c).priority
              then some new_process
              else other)
    ]

pub update : Sched → Result Sched
update s = elim (s.current_process) [
  | none ↦ ok (record s { current_process = first_head max_priority_queues 0 none s })
  | some c ↦ elim ((s.proc_list c).ptr) [
    | none ↦ panic Panic.sched_null_process
    | some ptr ↦ do s1 ← charge c s; ok (record s1 { current_process = choose c s1 })
  ]
]

-- The loop of `sched_printinfo` over a queue: the number of each process and its tickets.
pub print_queue : ℕ → Option ℕ → Processes → Sched → Result (List (ℕ × ℕ))
print_queue zero curr processes s = diverge
print_queue (suc fuel) none processes s = ok []
print_queue (suc fuel) (some curr) processes s = do
  ptr ← elim ((s.proc_list curr).ptr) [ none ↦ panic Panic.sched_null_process | some ptr ↦ ok ptr ]
  rest ← print_queue fuel ((s.proc_list curr).next_process) processes s
  ok (((processes ptr).pid, (s.proc_list curr).tickets_remaining) ∷ rest)

-- The loop of `sched_printinfo` over the queues: the rounds left, then `i`. An empty queue has no entries. A
-- queue has at most `max_processes` entries.
pub print_queues : ℕ → ℕ → Processes → Sched → Result (List (List (ℕ × ℕ)))
print_queues zero i processes s = ok []
print_queues (suc n) i processes s = do
  line ← print_queue (max_processes + 1) (s.proc_priority_list i) processes s
  rest ← print_queues n (i + 1) processes s
  ok (line ∷ rest)

-- What `sched_printinfo` prints: the number of the current process, if there is one, and the queues.
pub printinfo : Processes → Sched → Result (Option ℕ × List (List (ℕ × ℕ)))
printinfo processes s = do
  current ← elim (s.current_process) [
    | none ↦ ok none
    | some c ↦ elim ((s.proc_list c).ptr) [
      | none ↦ panic Panic.sched_null_process
      | some ptr ↦ ok (some (processes ptr).pid)
    ]
  ]
  lines ← print_queues max_priority_queues 0 processes s
  ok (current, lines)
