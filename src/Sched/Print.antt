-- ===== src/Sched/Print.antt =====
-- `sched_printinfo` (kernel/drivers/process/sched.c) prints the queues.
use koiz_os.Base.{
  ℕ, zero, suc, ◌+◌, ◌≤◌, ◌<◌, ◌≡◌, true, Option, none, some, List, [], ◌∷◌, map, arith, refl, ◌∙◌,
  ap, length,
}
use koiz_os.Kernel.{ok}
use koiz_os.Process.{Processes, max_processes}
use koiz_os.Sched.{Sched, max_priority_queues, print_queue, print_queues, printinfo}
use koiz_os.Sched.Members.{elem, length-Distinct}
use koiz_os.Sched.Links.{Chain}
use koiz_os.Sched.Queues.{Queues, Implements, points_somewhere}
use koiz_os.Sched.Top.{front_elem}
use koiz_os.Sched.Choose.{elem_later, some_cases}

-- The tickets of a line.
abbrev pub line_tickets : List (ℕ × ℕ) → List ℕ
line_tickets line = map (λ e. e.1) line

module _ (processes : Processes) (s : Sched) where
  print_queue-round :
      (fuel x ptr : ℕ) (line : List (ℕ × ℕ))
      → (s.proc_list x).ptr ≡ some ptr
      → print_queue fuel (s.proc_list x).next_process processes s ≡ ok line
      → print_queue (suc fuel) (some x) processes s
        ≡ ok (((processes ptr).pid, (s.proc_list x).tickets_remaining) ∷ line)
  unfolding print_queue
  print_queue-round fuel x ptr line e rest = rw (print_queue, e, rest) refl

  print_queue-line :
      (fuel : ℕ) (xs : List ℕ) (head : Option ℕ)
      → Chain s.proc_list head xs
      → length xs < fuel
      → ((k : ℕ) → elem k xs ≡ true → points_somewhere (s.proc_list k).ptr ≡ true)
      → (line : List (ℕ × ℕ)) × (print_queue fuel head processes s ≡ ok line)
        × (line_tickets line ≡ map (λ k. (s.proc_list k).tickets_remaining) xs)
  unfolding print_queue
  print_queue-line zero xs head chain enough no_null = absurd (omega arith)
  print_queue-line (suc fuel) [] head chain enough no_null =
      ([], ap (λ h. print_queue (suc fuel) h processes s) chain, refl)
  print_queue-line (suc fuel) (x ∷ xs) head (start, chain) enough no_null =
      let (ptr, here) = some_cases ((s.proc_list x).ptr) (no_null x (front_elem x xs)) in
      let (line, e, same) =
        print_queue-line fuel xs ((s.proc_list x).next_process) chain (omega arith)
          (λ k h. no_null k (elem_later k x xs h)) in
      (
        ((processes ptr).pid, (s.proc_list x).tickets_remaining) ∷ line,
        ap (λ h. print_queue (suc fuel) h processes s) start
            ∙ print_queue-round fuel x ptr line here e,
        ap (λ l. (s.proc_list x).tickets_remaining ∷ l) same,
      )

map_congr : (f g : ℕ → ℕ) (xs : List ℕ) → ((k : ℕ) → f k ≡ g k) → map f xs ≡ map g xs
map_congr f g [] same = refl
map_congr f g (x ∷ xs) same = let head = same x in let tail = map_congr f g xs same in cc

module _ (processes : Processes) (a : Queues) (s : Sched) (imp : Implements s a) where
  -- The queues from `i` on.
  abbrev pub queue_tickets : ℕ → ℕ → List (List ℕ)
  queue_tickets zero i = []
  queue_tickets (suc n) i = map a.tickets (a.queue i) ∷ queue_tickets n (i + 1)

  print_queues-lines :
      (n i : ℕ)
      → i + n ≤ max_priority_queues
      → (lines : List (List (ℕ × ℕ))) × (print_queues n i processes s ≡ ok lines)
        × (map line_tickets lines ≡ queue_tickets n i)
  unfolding print_queues
  print_queues-lines zero i h = ([], refl, refl)
  print_queues-lines (suc n) i h =
      let few =
        length-Distinct max_processes (a.queue i) (imp.apart.distinct i (omega arith))
          (λ k. imp.apart.in_table i k (omega arith)) in
      let (line, e, same) =
        print_queue-line processes s (max_processes + 1) (a.queue i) (s.proc_priority_list i)
          (imp.linked i (omega arith)) (omega (arith, few)) (λ k. imp.no_null i k (omega arith)) in
      let (lines, e2, same2) = print_queues-lines n (i + 1) (omega arith) in
      let head : line_tickets line ≡ map a.tickets (a.queue i) =
        same
        ∙ map_congr (λ k. (s.proc_list k).tickets_remaining) a.tickets (a.queue i)
            imp.same_tickets in
      (
        line ∷ lines,
        rw (e, e2) refl,
        ap (λ l. l ∷ map line_tickets lines) head ∙ ap (λ l. map a.tickets (a.queue i) ∷ l) same2,
      )

  current-case :
      (o : Option ℕ)
      → a.current ≡ o
      → (current : Option ℕ) × ((lines : List (List (ℕ × ℕ)))
          → print_queues max_priority_queues 0 processes s ≡ ok lines
          → printinfo processes s ≡ ok (current, lines))
  unfolding printinfo
  current-case none cur = (none, λ lines e. let idle = imp.same_current ∙ cur in rw (e, idle) refl)
  current-case (some c) cur =
      let (low, there) = imp.apart.current_in c cur in
      let (ptr, here) = some_cases ((s.proc_list c).ptr) (imp.no_null (a.priority c) c low there) in
      (
        some (processes ptr).pid,
        λ lines e. let busy = imp.same_current ∙ cur in rw (e, busy, here) refl,
      )

  -- When the linked lists hold queues that are apart, `sched_printinfo` follows the links of each
  -- queue to its end, without a panic, and prints the tickets of the processes in the order of the
  -- queues.
  pub printinfo-queues :
      (current : Option ℕ) × (lines : List (List (ℕ × ℕ))) × (printinfo processes s
        ≡ ok (current, lines))
      × (map line_tickets lines ≡ queue_tickets max_priority_queues 0)
  printinfo-queues =
      let (lines, e, same) = print_queues-lines max_priority_queues 0 (omega arith) in
      let (current, run) = current-case a.current refl in (current, lines, run lines e, same)
