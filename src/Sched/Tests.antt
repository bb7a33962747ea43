-- ===== src/Sched/Tests.antt =====
-- The theorems on sched.c after one process was added to an empty scheduler.
use koiz_os.Base.{
  true, ◌*◌, ◌<◌, ◌≤◌, ◌==◌, inl, inr, Bool-cases, subst, length, ℕ, ◌≡◌, Option, map, false, none,
  some, List, [], ◌∷◌, if◌then◌else◌, ltb, replicate, refl, arith,
}
use koiz_os.Kernel.{ok}
use koiz_os.Process.{Processes, runnable, unused, get}
use koiz_os.Sched.{Sched, max_priority_queues, full_timeslice_cost, init, addpid, update, printinfo}
use koiz_os.Sched.Print.{line_tickets, queue_tickets, printinfo-queues}
use koiz_os.Sched.Members.{elem}
use koiz_os.Sched.Queues.{Queues, Implements, add, tick}
use koiz_os.Sched.Top.{InQueue, with_current}
use koiz_os.Sched.Move.{some_inj}
use koiz_os.Sched.Fair.{updates, every_turn}
use koiz_os.Sched.Tick.{update-tick}
use koiz_os.Sched.Add.{added_sched, added-Implements, addpid-added}
use koiz_os.Sched.Reach.{
  Reaches, started, added, no_queues, init-Implements, Holds, Reaches-Holds, Reaches-goes_on,
}

abbrev one_process : Processes
one_process k = record {
  name = [];
  pid = k;
  cpu_time_ms = 0;
  current_priority = 0;
  state = if ltb k 2 then runnable else unused;
  killed = 0;
  registers = replicate 8 0;
  process_memory_start = 0;
  process_memory_size = 0;
}

one_process-get : get 1 one_process ≡ some 1
unfolding get
one_process-get = refl

abbrev blank : Sched
blank = record {
  proc_list = λ k. record { ptr = none; priority = 0; tickets_remaining = 0; next_process = none };
  proc_priority_list = λ p. none;
  current_process = none;
}

abbrev queues : Queues
queues = no_queues blank

abbrev one_entry : Sched
one_entry = added_sched 1 queues (init blank) one_process

one_entry-Implements : Implements one_entry (add 1 queues)
one_entry-Implements =
    added-Implements 1 queues (init blank) one_process (init-Implements blank refl) (λ p hp. refl)
      (omega arith)

one_entry-Reaches : Reaches (1 ∷ []) one_entry
one_entry-Reaches =
    added [] (init blank) one_entry one_process 1 1 (started blank refl) one_process-get refl
      (addpid-added 1 queues (init blank) one_process one_process-get)

update-tick_example :
    (s' : Sched) × (update one_entry ≡ ok s') × Implements s' (tick (add 1 queues))
update-tick_example = update-tick (add 1 queues) one_entry one_entry-Implements

Reaches-Holds_example : Holds (1 ∷ []) one_entry
Reaches-Holds_example = Reaches-Holds one_entry-Reaches

Reaches-goes_on_example :
    ((s' : Sched) × (update one_entry ≡ ok s') × Reaches (1 ∷ []) s')
    × ((processes : Processes) (pid r : ℕ)
        → get pid processes ≡ some r
        → elem pid (1 ∷ []) ≡ false
        → (s' : Sched) × (addpid processes pid one_entry ≡ ok s') × Reaches (pid ∷ 1 ∷ []) s')
Reaches-goes_on_example = Reaches-goes_on one_entry-Reaches

printinfo-queues_example :
    (current : Option ℕ) × (lines : List (List (ℕ × ℕ))) × (printinfo one_process one_entry
      ≡ ok (current, lines))
    × (map line_tickets lines
        ≡ queue_tickets one_process
            (add 1 queues)
            one_entry
            one_entry-Implements
            max_priority_queues
            0)
printinfo-queues_example =
    printinfo-queues one_process (add 1 queues) one_entry one_entry-Implements

-- Two processes, of which the second one added is current.
two_fresh : (p : ℕ) → p < max_priority_queues → elem 2 ((add 1 queues).queue p) ≡ false
unfolding add
two_fresh p hp = elim (Bool-cases (p == 0)) [ inl top ↦ rw top refl | inr low ↦ rw low refl ]

abbrev two_queues : Queues
two_queues = record (add 2 (add 1 queues)) { current = some 2 }

abbrev two_entries : Sched
two_entries = record (added_sched 2 (add 1 queues) one_entry one_process) {
  current_process = some 2;
}

two_entries-Implements : Implements two_entries two_queues
unfolding add
two_entries-Implements =
    with_current (some 2) (some 2)
      (added-Implements 2 (add 1 queues) one_entry one_process one_entry-Implements two_fresh
        (omega arith))
      refl (λ c e. subst (InQueue (add 2 (add 1 queues))) (some_inj e) (omega arith, refl))

two_rich :
    (k : ℕ)
    → elem k (two_queues.queue 0) ≡ true
    → full_timeslice_cost * length (two_queues.queue 0) ≤ two_queues.tickets k
unfolding add
two_rich k h = ground (arith, h)

every_turn_example :
    (k : ℕ) × (k < length (two_queues.queue 0))
    × (s' : Sched) × (updates k two_entries ≡ ok s')
    × (s'.current_process ≡ some 1)
unfolding add
every_turn_example =
    every_turn 2 two_queues two_entries two_entries-Implements refl refl two_rich 1 refl
