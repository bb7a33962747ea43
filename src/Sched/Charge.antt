-- ===== src/Sched/Charge.antt =====
-- The first part of `sched_update` (kernel/drivers/process/sched.c): the current process pays for its
-- time slice, and the linked lists hold the queues after it.
use koiz_os.Base.{
  ℕ, ◌-◌, ◌≡◌, ◌≢◌, inl, inr, true, false, some, ltb, arith, refl, ◌∙◌, ap, sym, Bool-cases,
  ℕ_discrete,
}
use koiz_os.Kernel.{ok}
use koiz_os.Sched.{MlfqEntry, Sched, starting_tickets, full_timeslice_cost, update_at, charge}
use koiz_os.Sched.Links.{Chain_congr}
use koiz_os.Sched.Queues.{Queues, Implements, points_somewhere, pay}
use koiz_os.Sched.Refine.{update_at_self, update_at_ne}
use koiz_os.Sched.Move.{demote-Implements}

-- Other tickets.
retick :
    {a : Queues} {s : Sched} (t : ℕ → ℕ)
    → Implements s a
    → ((k : ℕ) → t k ≡ a.tickets k)
    → Implements s (record a { tickets = t })
retick {a} {s} t imp same = record {
  apart = record {
    distinct = imp.apart.distinct;
    own_queue = imp.apart.own_queue;
    in_table = imp.apart.in_table;
    current_in = imp.apart.current_in;
  };
  same_current = imp.same_current;
  same_priority = imp.same_priority;
  same_tickets = λ k. imp.same_tickets k ∙ sym (same k);
  linked = imp.linked;
  no_null = imp.no_null;
}

-- The entry `c` with other tickets.
abbrev pub paid : ℕ → ℕ → Sched → Sched
paid c t s = record s {
  proc_list = update_at s.proc_list c (record (s.proc_list c) { tickets_remaining = t });
}

-- Only the tickets of one entry change.
entry_same :
    {B : Type 0} (c t : ℕ) (s : Sched) (f : MlfqEntry → B)
    → (f (record (s.proc_list c) { tickets_remaining = t }) ≡ f (s.proc_list c))
    → (k : ℕ) → f ((paid c t s).proc_list k) ≡ f (s.proc_list k)
entry_same c t s f h k =
    let e = record (s.proc_list c) { tickets_remaining = t } in
    elim (ℕ_discrete k c) [
      | yes hit ↦
          ap f (update_at_self s.proc_list c e k hit) ∙ h ∙ ap (λ j. f (s.proc_list j)) (sym hit)
      | no miss ↦ ap f (update_at_ne s.proc_list c e k miss)
    ]

paid-Implements :
    (c t : ℕ) {a : Queues} {s : Sched}
    → Implements s a
    → Implements (paid c t s) (record a { tickets = update_at a.tickets c t })
paid-Implements c t {a} {s} imp =
    let e = record (s.proc_list c) { tickets_remaining = t } in
    let at : (k : ℕ) → k ≡ c → update_at s.proc_list c e k ≡ e = update_at_self s.proc_list c e in
    let off : (k : ℕ) → k ≢ c → update_at s.proc_list c e k ≡ s.proc_list k =
      update_at_ne s.proc_list c e in
    record {
      apart = record {
        distinct = imp.apart.distinct;
        own_queue = imp.apart.own_queue;
        in_table = imp.apart.in_table;
        current_in = imp.apart.current_in;
      };
      same_current = imp.same_current;
      same_priority = λ k. entry_same c t s (λ v. v.priority) refl k ∙ imp.same_priority k;
      same_tickets = λ k. elim (ℕ_discrete k c) [
        | yes hit ↦
            ap (λ (v : MlfqEntry). v.tickets_remaining) (at k hit)
            ∙ sym (update_at_self a.tickets c t k hit)
        | no miss ↦
            ap (λ (v : MlfqEntry). v.tickets_remaining) (off k miss)
            ∙ imp.same_tickets k
            ∙ sym (update_at_ne a.tickets c t k miss)
      ];
      linked = λ q hq.
          Chain_congr s.proc_list (update_at s.proc_list c e) (a.queue q) (s.proc_priority_list q)
            (imp.linked q hq) (λ k hk. entry_same c t s (λ v. v.next_process) refl k);
      no_null =
          λ q k hq h. entry_same c t s (λ v. points_somewhere v.ptr) refl k ∙ imp.no_null q k hq h;
    }

twice : (c t v : ℕ) (f : ℕ → ℕ) (k : ℕ) → update_at f c v k ≡ update_at (update_at f c t) c v k
twice c t v f k = elim (ℕ_discrete k c) [
  | yes hit ↦ update_at_self f c v k hit ∙ sym (update_at_self (update_at f c t) c v k hit)
  | no miss ↦
      update_at_ne f c v k miss
      ∙ sym (update_at_ne (update_at f c t) c v k miss ∙ update_at_ne f c t k miss)
]

module _ (c : ℕ) (a : Queues) (s : Sched) (imp : Implements s a) (cur : a.current ≡ some c) where
  -- Paying keeps the current process where it is, or moves it down.
  pub charge-Implements : (s' : Sched) × (charge c s ≡ ok s') × Implements s' (pay c a)
  unfolding charge pay
  charge-Implements =
      let same : (s.proc_list c).tickets_remaining ≡ a.tickets c = imp.same_tickets c in
      let level : (s.proc_list c).priority ≡ a.priority c = imp.same_priority c in
      let t = (s.proc_list c).tickets_remaining - full_timeslice_cost in
      let low = paid-Implements c t imp in
      elim (Bool-cases (ltb (a.tickets c) full_timeslice_cost)) [
        | inl out ↦
            let out' : ltb (s.proc_list c).tickets_remaining full_timeslice_cost ≡ true =
              ap (λ (n : ℕ). ltb n full_timeslice_cost) same ∙ out in
            let none_left : t ≡ 0 = ground (arith, out', same) in
            elim (Bool-cases (ltb (a.priority c) 2)) [
              | inl upper ↦
                  let upper' : ltb (s.proc_list c).priority 2 ≡ true =
                    ap (λ (n : ℕ). ltb n 2) level ∙ upper in
                  let (s', e, imp') =
                    demote-Implements c (record a { tickets = update_at a.tickets c t })
                      (paid c t s) low cur (ground (arith, upper)) in
                  rw (out, out', upper, upper')
                    (
                      s',
                      e,
                      retick (update_at a.tickets c starting_tickets) imp'
                          (twice c t starting_tickets a.tickets),
                    )
              | inr lowest ↦
                  let lowest' : ltb (s.proc_list c).priority 2 ≡ false =
                    ap (λ (n : ℕ). ltb n 2) level ∙ lowest in
                  rw (out, out', lowest, lowest')
                    (
                      paid c t s,
                      refl,
                      retick (update_at a.tickets c 0) low
                          (λ k. ap (λ v. update_at a.tickets c v k) (sym none_left)),
                    )
            ]
        | inr left ↦
            let left' : ltb (s.proc_list c).tickets_remaining full_timeslice_cost ≡ false =
              ap (λ (n : ℕ). ltb n full_timeslice_cost) same ∙ left in
            rw (left, left')
              (
                paid c t s,
                refl,
                retick (update_at a.tickets c (a.tickets c - full_timeslice_cost)) low
                    (λ k. ap (λ v. update_at a.tickets c (v - full_timeslice_cost) k) (sym same)),
              )
      ]
