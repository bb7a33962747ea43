-- ===== src/Sched/Tick.antt =====
-- `sched_update` (kernel/drivers/process/sched.c) does to the linked lists what the scheduler promises of
-- its queues.
use koiz_os.Base.{
  ℕ, ◌≡◌, inl, inr, Option, none, some, ltb, arith, refl, ◌∙◌, ap, sym, subst, Bool-cases,
}
use koiz_os.Kernel.{Result, ok, panic, Panic, ◌>>=◌}
use koiz_os.Sched.{
  Sched, max_priority_queues, full_timeslice_cost, first_head, charge, choose, update,
}
use koiz_os.Sched.Queues.{Queues, Implements, points_somewhere, pay, top, second, pick, tick}
use koiz_os.Sched.Move.{some_inj}
use koiz_os.Sched.Charge.{charge-Implements}
use koiz_os.Sched.Top.{
  InQueue, with_current, queue_InQueue, TopIn, top-TopIn, else_found, first_head-top,
}
use koiz_os.Sched.Choose.{some_cases, picked}

idle-Implements :
    (a : Queues) (s : Sched)
    → Implements s a
    → Implements
        (record s { current_process = first_head max_priority_queues 0 none s })
        (record a { current = second (top max_priority_queues 0 a) })
idle-Implements a s imp =
    let o = top max_priority_queues 0 a in
    let found : else_found none o ≡ second o = elim o as (λ o. else_found none o ≡ second o) [
      | none ↦ refl
      | some (i, x) ↦ refl
    ] in
    let inside : (o : Option (ℕ × ℕ)) → TopIn a o → (c : ℕ) → second o ≡ some c → InQueue a c = λ o.
      elim o as (λ o. TopIn a o → (c : ℕ) → second o ≡ some c → InQueue a c) [
        | none ↦ λ h c e. absurd (ground (arith, ap points_somewhere e))
        | some (i, x) ↦
            λ h c e. subst (InQueue a) (some_inj e) (queue_InQueue imp.apart i x h.0 h.1)
      ] in
    with_current (first_head max_priority_queues 0 none s) (second o) imp
      (first_head-top a s none max_priority_queues 0 imp (omega arith) ∙ found)
      (inside o (top-TopIn a max_priority_queues 0 (omega arith)))

update_busy :
    (c ptr : ℕ) (s s1 : Sched)
    → s.current_process ≡ some c
    → (s.proc_list c).ptr ≡ some ptr
    → charge c s ≡ ok s1
    → update s ≡ ok (record s1 { current_process = choose c s1 })
unfolding update
update_busy c ptr s s1 cur here e = rw (update, cur, here, e) refl

pub tick-idle :
    (a : Queues)
    → a.current ≡ none
    → tick a ≡ record a { current = second (top max_priority_queues 0 a) }
unfolding tick
tick-idle a cur =
    ap
      (λ (o : Option ℕ). elim o as (λ o. Queues) [
        | none ↦ record a { current = second (top max_priority_queues 0 a) }
        | some c ↦ record (pay c a) { current = some (pick c (pay c a)) }
      ])
      cur

update_idle :
    (s : Sched)
    → s.current_process ≡ none
    → update s ≡ ok (record s { current_process = first_head max_priority_queues 0 none s })
unfolding update
update_idle s cur =
    ap
      (λ (o : Option ℕ). elim o as (λ o. Result Sched) [
        | none ↦ ok (record s { current_process = first_head max_priority_queues 0 none s })
        | some c ↦ elim ((s.proc_list c).ptr) as (λ o. Result Sched) [
          | none ↦ panic Panic.sched_null_process
          | some ptr ↦ (charge c s >>= λ s1. ok (record s1 { current_process = choose c s1 }))
        ]
      ])
      cur

pub tick-busy :
    (c : ℕ) (a : Queues)
    → a.current ≡ some c
    → tick a ≡ record (pay c a) { current = some (pick c (pay c a)) }
unfolding tick
tick-busy c a cur =
    ap
      (λ (o : Option ℕ). elim o as (λ o. Queues) [
        | none ↦ record a { current = second (top max_priority_queues 0 a) }
        | some c ↦ record (pay c a) { current = some (pick c (pay c a)) }
      ])
      cur

pay-current : (c : ℕ) (a : Queues) → (pay c a).current ≡ a.current
unfolding pay
pay-current c a = elim (Bool-cases (ltb (a.tickets c) full_timeslice_cost)) [
  | inl out ↦ elim (Bool-cases (ltb (a.priority c) 2)) [
    | inl upper ↦ rw (out, upper) refl
    | inr lowest ↦ rw (out, lowest) refl
  ]
  | inr left ↦ rw left refl
]

update-case :
    (o : Option ℕ) (a : Queues) (s : Sched)
    → a.current ≡ o
    → Implements s a
    → (s' : Sched) × (update s ≡ ok s') × Implements s' (tick a)
unfolding update tick
update-case none a s cur imp =
    let s' = record s { current_process = first_head max_priority_queues 0 none s } in
    (
      s',
      update_idle s (imp.same_current ∙ cur),
      subst (Implements s') (sym (tick-idle a cur)) (idle-Implements a s imp),
    )
update-case (some c) a s cur imp =
    let here = imp.apart.current_in c cur in
    let (ptr, e) = some_cases ((s.proc_list c).ptr) (imp.no_null (a.priority c) c here.0 here.1) in
    let (s1, charged, imp1) = charge-Implements c a s imp cur in
    let there = imp1.apart.current_in c (pay-current c a ∙ cur) in
    (
      record s1 { current_process = choose c s1 },
      update_busy c ptr s s1 (imp.same_current ∙ cur) e charged,
      subst (Implements (record s1 { current_process = choose c s1 })) (sym (tick-busy c a cur))
          (picked c (pay c a) s1 imp1 there),
    )

-- When the linked lists hold queues that are apart, `sched_update` does what a tick does to the
-- queues, and the lists hold the result. It does not panic, and its search of a list ends.
pub update-tick :
    (a : Queues) (s : Sched)
    → Implements s a
    → (s' : Sched) × (update s ≡ ok s') × Implements s' (tick a)
update-tick a s imp = update-case a.current a s refl imp
