-- ===== src/Sched/Queues.antt =====
-- What kernel/drivers/process/sched.c promises: three queues of processes as lists, and what the
-- scheduler does with them.
use koiz_os.Base.{
  ℕ, zero, suc, ◌+◌, ◌-◌, ◌<◌, ◌≡◌, Bool, true, false, ◌||◌, Option, none, some, List, [], ◌∷◌, ltb,
  if◌then◌else◌,
}
use koiz_os.Process.{max_processes}
use koiz_os.Sched.{Sched, max_priority_queues, starting_tickets, full_timeslice_cost, update_at}
use koiz_os.Sched.Members.{elem, remove, front, next_of, Distinct}
use koiz_os.Sched.Links.{Chain}

-- The queues by priority, and the priority and the tickets of each process.
pub record Queues : Type 0 where
  pub queue : ℕ → List ℕ
  pub priority : ℕ → ℕ
  pub tickets : ℕ → ℕ
  pub current : Option ℕ

-- A new process starts at the head of the highest queue.
unfoldable pub add : ℕ → Queues → Queues
add pid a = record a {
  queue = update_at a.queue 0 (pid ∷ a.queue 0);
  priority = update_at a.priority pid 0;
  tickets = update_at a.tickets pid starting_tickets;
}

-- A process without tickets moves to the head of the next lower queue, if there is one.
unfoldable pub pay : ℕ → Queues → Queues
pay c a =
    let p = a.priority c in
    if ltb (a.tickets c) full_timeslice_cost
    then (if ltb p (max_priority_queues - 1)
        then record a {
          queue =
              update_at (update_at a.queue p (remove c (a.queue p))) (p + 1) (c ∷ a.queue (p + 1));
          priority = update_at a.priority c (p + 1);
          tickets = update_at a.tickets c starting_tickets;
        }
        else record a { tickets = update_at a.tickets c 0 })
    else record a { tickets = update_at a.tickets c (a.tickets c - full_timeslice_cost) }

-- The head of the first of `n` queues from `i` on that is not empty, and its number.
unfoldable pub top : ℕ → ℕ → Queues → Option (ℕ × ℕ)
top zero i a = none
top (suc n) i a = elim (a.queue i) [ [] ↦ top n (i + 1) a | x ∷ xs ↦ some (i, x) ]

-- The first of three choices that there is.
abbrev pub or_else : Option ℕ → Option ℕ → ℕ → ℕ
or_else (some x) o c = x
or_else none (some x) c = x
or_else none none c = c

-- The queue of `c` in turn: what follows `c`, else the head.
unfoldable pub after : ℕ → Queues → ℕ
after c a = or_else (next_of c (a.queue (a.priority c))) (front (a.queue (a.priority c))) c

-- The next process: the head of a higher queue, if there is one, else the next one in line.
unfoldable pub pick : ℕ → Queues → ℕ
pick c a = elim (top max_priority_queues 0 a) [
  | none ↦ after c a
  | some (i, x) ↦ if ltb i (a.priority c) then x else after c a
]

abbrev pub second : Option (ℕ × ℕ) → Option ℕ
second none = none
second (some (i, x)) = some x

-- A tick of the clock.
unfoldable pub tick : Queues → Queues
tick a = elim (a.current) [
  | none ↦ record a { current = second (top max_priority_queues 0 a) }
  | some c ↦ let paid = pay c a in record paid { current = some (pick c paid) }
]

-- A process is in one of the queues.
abbrev scheduled : ℕ → Queues → Bool
scheduled c a = elem c (a.queue 0) || elem c (a.queue 1) || elem c (a.queue 2)

-- The queues are apart: each process is once in the queue of its priority. The current process
-- is in its queue.
pub record IsApart (a : Queues) : Type 0 where
  pub distinct : (p : ℕ) → p < max_priority_queues → Distinct (a.queue p)
  pub own_queue : (p c : ℕ) → p < max_priority_queues → elem c (a.queue p) ≡ true → a.priority c ≡ p
  pub in_table : (p c : ℕ) → p < max_priority_queues → elem c (a.queue p) ≡ true → c < max_processes
  pub current_in :
      (c : ℕ)
      → a.current ≡ some c
      → (a.priority c < max_priority_queues) × (elem c (a.queue (a.priority c)) ≡ true)

abbrev pub points_somewhere : Option ℕ → Bool
points_somewhere none = false
points_somewhere (some x) = true

-- The linked lists of sched.c hold the queues.
pub record Implements (s : Sched) (a : Queues) : Type 0 where
  pub apart : IsApart a
  pub same_current : s.current_process ≡ a.current
  pub same_priority : (c : ℕ) → (s.proc_list c).priority ≡ a.priority c
  pub same_tickets : (c : ℕ) → (s.proc_list c).tickets_remaining ≡ a.tickets c
  pub linked :
      (p : ℕ) → p < max_priority_queues → Chain s.proc_list (s.proc_priority_list p) (a.queue p)
  pub no_null :
      (p c : ℕ)
      → p < max_priority_queues
      → elem c (a.queue p) ≡ true
      → points_somewhere (s.proc_list c).ptr ≡ true
