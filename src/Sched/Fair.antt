-- ===== src/Sched/Fair.antt =====
-- `sched_update` (kernel/drivers/process/sched.c), called again and again: the processes of the highest queue
-- take turns.
use koiz_os.Base.{
  ℕ, zero, suc, ◌-◌, ◌*◌, ◌≤◌, ◌<◌, ◌≡◌, inl, inr, true, false, Option, none, some, List, [], ◌∷◌,
  ◌==◌, ltb, if◌then◌else◌, arith, refl, ◌∙◌, ap, sym, subst, length, ℕ_discrete,
}
use koiz_os.Kernel.{Result, ok, ◌>>=◌}
use koiz_os.Sched.{Sched, max_priority_queues, full_timeslice_cost, update_at, update}
use koiz_os.Sched.Members.{elem, front, next_of}
use koiz_os.Sched.Queues.{Queues, Implements, pay, top, after, pick, tick}
use koiz_os.Sched.Refine.{update_at_self, update_at_ne}
use koiz_os.Sched.Choose.{or_else-elem, next_of-elem, front-elem}
use koiz_os.Sched.Tick.{tick-busy, update-tick}
use koiz_os.Sched.Turns.{turn, Follows, round_of}

-- `n` ticks of the clock.
pub updates : ℕ → Sched → Result Sched
updates zero s = ok s
updates (suc n) s = update s >>= updates n

pay_enough :
    (c : ℕ) (a : Queues)
    → full_timeslice_cost ≤ a.tickets c
    → pay c a ≡ record a { tickets = update_at a.tickets c (a.tickets c - full_timeslice_cost) }
unfolding pay
pay_enough c a h =
    let enough : ltb (a.tickets c) full_timeslice_cost ≡ false = ground arith in rw enough refl

pick_case :
    (o : Option (ℕ × ℕ)) (p v : ℕ)
    → p ≡ 0
    → (elim o as (λ o. ℕ) [ none ↦ v | some (i, x) ↦ if ltb i p then x else v ]) ≡ v
pick_case none p v h = refl
pick_case (some (i, x)) p v h = let same : ltb i p ≡ false = ground (arith, h) in rw same refl

pick-turn : (c : ℕ) (a : Queues) → a.priority c ≡ 0 → pick c a ≡ turn (a.queue 0) c
unfolding pick after
pick-turn c a h =
    pick_case (top max_priority_queues 0 a) (a.priority c) (after c a) h
    ∙ ap (λ (p : ℕ). turn (a.queue p) c) h

-- A tick in the highest queue, with tickets left.
module _ (c : ℕ) (a : Queues) (cur : a.current ≡ some c) (level : a.priority c ≡ 0)
    (enough : full_timeslice_cost ≤ a.tickets c) where
  abbrev turned : Queues
  turned = record a {
    tickets = update_at a.tickets c (a.tickets c - full_timeslice_cost);
    current = some (turn (a.queue 0) c);
  }

  tick-turn : tick a ≡ turned
  tick-turn =
      tick-busy c a cur
      ∙ ap (λ (b : Queues). record b { current = some (pick c b) }) (pay_enough c a enough)
      ∙ ap
          (λ (x : ℕ). record a {
            tickets = update_at a.tickets c (a.tickets c - full_timeslice_cost);
            current = some x;
          })
          (pick-turn c
            (record a { tickets = update_at a.tickets c (a.tickets c - full_timeslice_cost) })
            level)

  turned-tickets : (k : ℕ) → a.tickets k - full_timeslice_cost ≤ turned.tickets k
  turned-tickets k = elim (ℕ_discrete k c) [
    | yes here ↦ omega (
      arith,
      update_at_self a.tickets c (a.tickets c - full_timeslice_cost) k here,
      ap a.tickets here,
    )
    | no away ↦ omega (arith, update_at_ne a.tickets c (a.tickets c - full_timeslice_cost) k away)
  ]

  turn-elem : elem c (a.queue 0) ≡ true → elem (turn (a.queue 0) c) (a.queue 0) ≡ true
  turn-elem h =
      or_else-elem (next_of c (a.queue 0)) (front (a.queue 0)) c (a.queue 0)
        (λ x. next_of-elem c x (a.queue 0)) (λ x. front-elem x (a.queue 0)) h

-- The scheduler comes to a process within `n` ticks.
abbrev Gets : ℕ → Sched → ℕ → Type 0
Gets n s x =
    (k : ℕ) × (k ≤ n) × (s' : Sched) × (updates k s ≡ ok s') × (s'.current_process ≡ some x)

Gets-suc : (n : ℕ) (s s1 : Sched) (x : ℕ) → update s ≡ ok s1 → Gets n s1 x → Gets (suc n) s x
unfolding updates
Gets-suc n s s1 x e (k, h, s', run, cur) = (suc k, omega arith, s', rw e run, cur)

visits :
    (ts : List ℕ) (c : ℕ) (a : Queues) (s : Sched)
    → Implements s a
    → a.current ≡ some c
    → elem c (a.queue 0) ≡ true
    → Follows (a.queue 0) c ts
    → ((k : ℕ) → elem k (a.queue 0) ≡ true → full_timeslice_cost * length ts ≤ a.tickets k)
    → (x : ℕ) → elem x ts ≡ true
    → Gets (length ts) s x
unfolding updates
visits [] c a s imp cur here follow rich x h = absurd (ground (arith, h))
visits (t ∷ ts) c a s imp cur here (next, follow) rich x h =
    let level = imp.apart.own_queue 0 c (omega arith) here in
    let enough : full_timeslice_cost ≤ a.tickets c = omega (arith, rich c here) in
    let (s1, e, imp0) = update-tick a s imp in
    let imp1 : Implements s1 (turned c a cur level enough) =
      subst (Implements s1) (tick-turn c a cur level enough) imp0 in
    let cur1 : some (turn (a.queue 0) c) ≡ some t = ap some next in
    let there : elem t (a.queue 0) ≡ true =
      ap (λ (v : ℕ). elem v (a.queue 0)) (sym next) ∙ turn-elem c a cur level enough here in
    elim (ℕ_discrete t x) [
      | yes hit ↦
          Gets-suc (length ts) s s1 x e
            (0, omega arith, s1, refl, imp1.same_current ∙ cur1 ∙ ap some hit)
      | no miss ↦
          let test : (t == x) ≡ false = ground (arith, miss) in
          Gets-suc (length ts) s s1 x e (
            visits ts t (turned c a cur level enough) s1 imp1 cur1 there follow
              (λ k hk. omega (arith, rich k hk, turned-tickets c a cur level enough k)) x
              (ground (arith, h, test)))
    ]

-- When the linked lists hold queues that are apart, a process of the highest queue is current, and
-- each process of that queue has tickets for a whole round, every process of the queue becomes
-- current within one round: in fewer updates than the queue has processes.
pub every_turn :
    (c : ℕ) (a : Queues) (s : Sched)
    → Implements s a
    → a.current ≡ some c
    → elem c (a.queue 0) ≡ true
    → ((k : ℕ) → elem k (a.queue 0) ≡ true → full_timeslice_cost * length (a.queue 0) ≤ a.tickets k)
    → (x : ℕ) → elem x (a.queue 0) ≡ true
    → (k : ℕ) × (k < length (a.queue 0))
      × (s' : Sched) × (updates k s ≡ ok s')
      × (s'.current_process ≡ some x)
unfolding updates
every_turn c a s imp cur here rich x h =
    let (ts, follow, size, all) =
      round_of c (a.queue 0) here (imp.apart.distinct 0 (omega arith)) in
    elim (all x h) [
      | inl same ↦ (0, omega (arith, size), s, refl, imp.same_current ∙ cur ∙ ap some (sym same))
      | inr later ↦
          let (k, few, s', run, at) =
            visits ts c a s imp cur here follow (λ k hk. omega (arith, size, rich k hk)) x later in
          (k, omega (arith, few, size), s', run, at)
    ]
