-- ===== src/Sched/Add.antt =====
-- `sched_addpid` (kernel/drivers/process/sched.c): a new process in the queues and in the linked lists.
use koiz_os.Base.{
  ℕ, ◌<◌, ◌≡◌, ◌≢◌, ◌⊎◌, inl, inr, true, false, some, ◌∷◌, ◌==◌, arith, refl, ◌∙◌, ap, sym, subst,
  ℕ_discrete,
}
use koiz_os.Kernel.{ok}
use koiz_os.Process.{Processes, max_processes, get}
use koiz_os.Process.Table.{get-some}
use koiz_os.Sched.{MlfqEntry, Sched, max_priority_queues, starting_tickets, update_at, addpid}
use koiz_os.Sched.Members.{elem, Distinct}
use koiz_os.Sched.Links.{Chain, Chain_congr}
use koiz_os.Sched.Queues.{Queues, IsApart, Implements, points_somewhere, add}
use koiz_os.Sched.Refine.{update_at_self, update_at_ne}
use koiz_os.Sched.Choose.{elem_later}

module _ (pid : ℕ) (a : Queues) where
  -- A new process, in no queue before.
  abbrev pub Fresh : Type 0
  Fresh = (p : ℕ) → p < max_priority_queues → elem pid (a.queue p) ≡ false

  pub add-elem :
      (q k : ℕ)
      → elem k ((add pid a).queue q) ≡ true
      → ((k ≡ pid) × (q ≡ 0)) ⊎ (elem k (a.queue q) ≡ true)
  unfolding add
  add-elem q k h = elim (ℕ_discrete q 0) [
    | yes top ↦
        let e : elem k ((add pid a).queue q) ≡ elem k (pid ∷ a.queue 0) =
          ap (elem k) (update_at_self a.queue 0 (pid ∷ a.queue 0) q top) in
        elim (ℕ_discrete k pid) [
          | yes hit ↦ inl (hit, top)
          | no miss ↦
              let test : (pid == k) ≡ false = ground (arith, miss) in
              inr (ap (λ (v : ℕ). elem k (a.queue v)) top ∙ ground (arith, e, h, test))
        ]
    | no other ↦ inr (sym (ap (elem k) (update_at_ne a.queue 0 (pid ∷ a.queue 0) q other)) ∙ h)
  ]

  pub add-keeps : (q k : ℕ) → elem k (a.queue q) ≡ true → elem k ((add pid a).queue q) ≡ true
  unfolding add
  add-keeps q k h = elim (ℕ_discrete q 0) [
    | yes top ↦
        let e : elem k ((add pid a).queue q) ≡ elem k (pid ∷ a.queue 0) =
          ap (elem k) (update_at_self a.queue 0 (pid ∷ a.queue 0) q top) in
        let h' : elem k (a.queue 0) ≡ true = ap (λ (v : ℕ). elem k (a.queue v)) (sym top) ∙ h in
        e ∙ elem_later k pid (a.queue 0) h'
    | no other ↦ ap (elem k) (update_at_ne a.queue 0 (pid ∷ a.queue 0) q other) ∙ h
  ]

  add-IsApart : IsApart a → Fresh → pid < max_processes → IsApart (add pid a)
  unfolding add
  add-IsApart apart fresh small = record {
    distinct = λ q hq. elim (ℕ_discrete q 0) [
      | yes top ↦
          subst Distinct (sym (update_at_self a.queue 0 (pid ∷ a.queue 0) q top))
            (fresh 0 (omega arith), apart.distinct 0 (omega arith))
      | no other ↦
          subst Distinct (sym (update_at_ne a.queue 0 (pid ∷ a.queue 0) q other))
            (apart.distinct q hq)
    ];
    own_queue = λ q k hq h. elim (ℕ_discrete k pid) [
      | yes hit ↦ elim (add-elem q k h) [
        | inl (same, top) ↦ update_at_self a.priority pid 0 k hit ∙ sym top
        | inr there ↦
            absurd (ground (arith, there, fresh q hq, ap (λ (v : ℕ). elem v (a.queue q)) hit))
      ]
      | no miss ↦ elim (add-elem q k h) [
        | inl (same, top) ↦ absurd (miss same)
        | inr there ↦ update_at_ne a.priority pid 0 k miss ∙ apart.own_queue q k hq there
      ]
    ];
    in_table = λ q k hq h. elim (add-elem q k h) [
      | inl (same, top) ↦ omega (arith, same)
      | inr there ↦ apart.in_table q k hq there
    ];
    current_in = λ k e.
        let (low, there) = apart.current_in k e in
        let miss : k ≢ pid = λ hit. absurd (
          ground (
            arith,
            there,
            fresh (a.priority k) low,
            ap (λ (v : ℕ). elem v (a.queue (a.priority k))) hit,
          )) in
        let level : (add pid a).priority k ≡ a.priority k = update_at_ne a.priority pid 0 k miss in
        (
          omega (arith, level, low),
          ap (λ (q : ℕ). elem k ((add pid a).queue q)) level ∙ add-keeps (a.priority k) k there,
        );
  }

module _ (pid : ℕ) (a : Queues) (s : Sched) (processes : Processes) where
  abbrev pub added : ℕ → MlfqEntry
  added = update_at s.proc_list pid (record {
    ptr = some pid;
    priority = 0;
    tickets_remaining = starting_tickets;
    next_process = s.proc_priority_list 0;
  })

  added_self :
      (k : ℕ)
      → k ≡ pid
      → added k ≡ record {
        ptr = some pid;
        priority = 0;
        tickets_remaining = starting_tickets;
        next_process = s.proc_priority_list 0;
      }
  added_self = update_at_self s.proc_list pid (record {
    ptr = some pid;
    priority = 0;
    tickets_remaining = starting_tickets;
    next_process = s.proc_priority_list 0;
  })

  added_ne : (k : ℕ) → k ≢ pid → added k ≡ s.proc_list k
  added_ne = update_at_ne s.proc_list pid (record {
    ptr = some pid;
    priority = 0;
    tickets_remaining = starting_tickets;
    next_process = s.proc_priority_list 0;
  })

  abbrev pub added_sched : Sched
  added_sched = record s {
    proc_list = added;
    proc_priority_list = update_at s.proc_priority_list 0 (some pid);
  }

  pub added-Implements :
      Implements s a → Fresh pid a → pid < max_processes → Implements added_sched (add pid a)
  unfolding add
  added-Implements imp fresh small =
      let other : (q : ℕ)
          → q < max_priority_queues
          → Chain added (s.proc_priority_list q) (a.queue q) =
        λ q hq.
          Chain_congr s.proc_list added (a.queue q) (s.proc_priority_list q) (imp.linked q hq)
            (λ k hk.
              ap (λ (v : MlfqEntry). v.next_process)
                (added_ne k (λ hit.
                  absurd
                    (ground (arith, hk, fresh q hq, ap (λ (v : ℕ). elem v (a.queue q)) hit))))) in
      record {
        apart = add-IsApart pid a imp.apart fresh small;
        same_current = imp.same_current;
        same_priority = λ k. elim (ℕ_discrete k pid) [
          | yes hit ↦
              ap (λ (v : MlfqEntry). v.priority) (added_self k hit)
              ∙ sym (update_at_self a.priority pid 0 k hit)
          | no miss ↦
              ap (λ (v : MlfqEntry). v.priority) (added_ne k miss)
              ∙ imp.same_priority k
              ∙ sym (update_at_ne a.priority pid 0 k miss)
        ];
        same_tickets = λ k. elim (ℕ_discrete k pid) [
          | yes hit ↦
              ap (λ (v : MlfqEntry). v.tickets_remaining) (added_self k hit)
              ∙ sym (update_at_self a.tickets pid starting_tickets k hit)
          | no miss ↦
              ap (λ (v : MlfqEntry). v.tickets_remaining) (added_ne k miss)
              ∙ imp.same_tickets k
              ∙ sym (update_at_ne a.tickets pid starting_tickets k miss)
        ];
        linked = λ q hq. elim (ℕ_discrete q 0) [
          | yes top ↦
              let link : (added pid).next_process ≡ s.proc_priority_list 0 =
                ap (λ (v : MlfqEntry). v.next_process) (added_self pid refl) in
              rw
                (
                  update_at_self s.proc_priority_list 0 (some pid) q top,
                  update_at_self a.queue 0 (pid ∷ a.queue 0) q top,
                )
                (refl, subst (λ h. Chain added h (a.queue 0)) (sym link) (other 0 (omega arith)))
          | no low ↦
              rw
                (
                  update_at_ne s.proc_priority_list 0 (some pid) q low,
                  update_at_ne a.queue 0 (pid ∷ a.queue 0) q low,
                )
                (other q hq)
        ];
        no_null = λ q k hq h. elim (ℕ_discrete k pid) [
          | yes hit ↦ ap (λ (v : MlfqEntry). points_somewhere v.ptr) (added_self k hit)
          | no miss ↦ elim (add-elem pid a q k h) [
            | inl (same, top) ↦ absurd (miss same)
            | inr there ↦
                ap (λ (v : MlfqEntry). points_somewhere v.ptr) (added_ne k miss)
                ∙ imp.no_null q k hq there
          ]
        ];
      }

  pub addpid-added : get pid processes ≡ some pid → addpid processes pid s ≡ ok added_sched
  unfolding addpid
  addpid-added h = rw (addpid, h) refl

  -- `sched_addpid` of a process that is in use and in no queue puts it at the head of the highest queue.
  pub addpid-Implements :
      (r : ℕ)
      → Implements s a
      → get pid processes ≡ some r
      → Fresh pid a
      → (s' : Sched) × (addpid processes pid s ≡ ok s') × Implements s' (add pid a)
  addpid-Implements r imp found fresh =
      let (e, small) = get-some pid r processes found in
      (added_sched, addpid-added e, added-Implements imp fresh small)
