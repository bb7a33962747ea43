-- ===== src/Sched/Move.antt =====
-- The move of a process to the next lower queue in kernel/drivers/process/sched.c: the queues stay
-- apart, and the linked lists hold them.
use koiz_os.Base.{
  ℕ, ◌+◌, ◌<◌, ◌≡◌, ◌≢◌, ◌⊎◌, inl, inr, true, false, none, some, ◌∷◌, ◌==◌, ltb, if◌then◌else◌,
  arith, refl, ◌∙◌, ap, sym, subst, Bool-cases, ℕ_discrete,
}
use koiz_os.Kernel.{ok}
use koiz_os.Sched.{MlfqEntry, Sched, max_priority_queues, starting_tickets, update_at, push, demote}
use koiz_os.Sched.Members.{elem, remove, Distinct, elem-remove, remove-Distinct}
use koiz_os.Sched.Links.{Chain, Chain_congr}
use koiz_os.Sched.Queues.{Queues, IsApart, Implements, points_somewhere}
use koiz_os.Sched.Refine.{
  update_at_self, update_at_ne, not_elsewhere, without, TakenOut, take_out, take_out-TakenOut,
}

-- `c` has moved from its queue to the next lower one.
abbrev pub moved : ℕ → Queues → Queues
moved c a = record a {
  queue =
      update_at (without c (a.priority c) a) (a.priority c + 1) (c ∷ a.queue (a.priority c + 1));
  priority = update_at a.priority c (a.priority c + 1);
  tickets = update_at a.tickets c starting_tickets;
}

pub some_inj : {x y : ℕ} → some x ≡ some y → x ≡ y
some_inj {x} e = ap (λ o. elim o [ none ↦ x | some z ↦ z ]) e

module _ (c : ℕ) (a : Queues) (apart : IsApart a) (cur : a.current ≡ some c)
    (hp : a.priority c < 2) where
  abbrev own : ℕ
  own = a.priority c

  pub in_own : elem c (a.queue own) ≡ true
  in_own = (apart.current_in c cur).1

  not_below : elem c (a.queue (own + 1)) ≡ false
  not_below = not_elsewhere apart (own + 1) own c (omega arith) (omega arith) (omega arith) in_own

  without-elem :
      (q k : ℕ)
      → q < max_priority_queues
      → elem k (without c own a q) ≡ true
      → (k ≢ c) × (elem k (a.queue q) ≡ true)
  without-elem q k hq h = elim (ℕ_discrete q own) [
    | yes here ↦
        let e : elem k (without c own a q) ≡ (if c == k then false else elem k (a.queue own)) =
          ap (elem k) (update_at_self a.queue own (remove c (a.queue own)) q here)
          ∙ elem-remove c k (a.queue own) (apart.distinct own (omega arith)) in
        let same : elem k (a.queue q) ≡ elem k (a.queue own) =
          ap (λ (v : ℕ). elem k (a.queue v)) here in
        elim (ℕ_discrete k c) [
          | yes hit ↦
              let test : (c == k) ≡ true = ground (arith, hit) in
              absurd (ground (arith, e, h, test))
          | no miss ↦
              let test : (c == k) ≡ false = ground (arith, miss) in
              (miss, ground (arith, e, h, test, same))
        ]
    | no other ↦
        let e : elem k (without c own a q) ≡ elem k (a.queue q) =
          ap (elem k) (update_at_ne a.queue own (remove c (a.queue own)) q other) in
        let there : elem k (a.queue q) ≡ true = sym e ∙ h in
        (λ hit. other (sym (apart.own_queue q k hq there) ∙ ap a.priority hit), there)
  ]

  without_self : (q : ℕ) → q < max_priority_queues → elem c (without c own a q) ≡ false
  without_self q hq = elim (Bool-cases (elem c (without c own a q))) [
    | inl there ↦ absurd ((without-elem q c hq there).0 refl)
    | inr away ↦ away
  ]

  pub moved-elem :
      (q k : ℕ)
      → q < max_priority_queues
      → elem k ((moved c a).queue q) ≡ true
      → ((k ≡ c) × (q ≡ own + 1)) ⊎ ((k ≢ c) × (elem k (a.queue q) ≡ true))
  moved-elem q k hq h = elim (ℕ_discrete q (own + 1)) [
    | yes below ↦
        let e : elem k ((moved c a).queue q) ≡ elem k (c ∷ a.queue (own + 1)) =
          ap (elem k)
            (update_at_self (without c own a) (own + 1) (c ∷ a.queue (own + 1)) q below) in
        let same : elem k (a.queue q) ≡ elem k (a.queue (own + 1)) =
          ap (λ (v : ℕ). elem k (a.queue v)) below in
        elim (ℕ_discrete k c) [
          | yes hit ↦ inl (hit, below)
          | no miss ↦
              let test : (c == k) ≡ false = ground (arith, miss) in
              inr (miss, ground (arith, e, h, test, same))
        ]
    | no other ↦ inr (
        without-elem q k hq (
          sym
            (ap (elem k) (update_at_ne (without c own a) (own + 1) (c ∷ a.queue (own + 1)) q other))
          ∙ h))
  ]

  moved-IsApart : IsApart (moved c a)
  moved-IsApart = record {
    distinct = λ q hq. elim (ℕ_discrete q (own + 1)) [
      | yes below ↦
          subst Distinct
            (sym (update_at_self (without c own a) (own + 1) (c ∷ a.queue (own + 1)) q below))
            (not_below, apart.distinct (own + 1) (omega arith))
      | no other ↦
          subst Distinct
            (sym (update_at_ne (without c own a) (own + 1) (c ∷ a.queue (own + 1)) q other))
            (elim (ℕ_discrete q own) [
              | yes here ↦
                  subst Distinct (sym (update_at_self a.queue own (remove c (a.queue own)) q here))
                    (remove-Distinct c (a.queue own) (apart.distinct own (omega arith)))
              | no free ↦
                  subst Distinct (sym (update_at_ne a.queue own (remove c (a.queue own)) q free))
                    (apart.distinct q hq)
            ])
    ];
    own_queue = λ q k hq h. elim (moved-elem q k hq h) [
      | inl (hit, below) ↦ update_at_self a.priority c (own + 1) k hit ∙ sym below
      | inr (miss, there) ↦
          update_at_ne a.priority c (own + 1) k miss ∙ apart.own_queue q k hq there
    ];
    in_table = λ q k hq h. elim (moved-elem q k hq h) [
      | inl (hit, below) ↦ omega (arith, hit, apart.in_table own c (omega arith) in_own)
      | inr (miss, there) ↦ apart.in_table q k hq there
    ];
    current_in = λ k e.
        let hit : k ≡ c = some_inj (sym e ∙ cur) in
        let level : (moved c a).priority k ≡ own + 1 =
          update_at_self a.priority c (own + 1) k hit in
        let list : (moved c a).queue (own + 1) ≡ c ∷ a.queue (own + 1) =
          update_at_self (without c own a) (own + 1) (c ∷ a.queue (own + 1)) (own + 1) refl in
        let there : elem k (c ∷ a.queue (own + 1)) ≡ true = ground (arith, hit) in
        (
          omega (arith, level),
          ap (λ (v : ℕ). elem k ((moved c a).queue v)) level ∙ ap (elem k) list ∙ there,
        );
  }

  module _ (s s1 : Sched) (imp : Implements s a) (t : TakenOut c own a s s1) where
    abbrev after_push : Sched
    after_push = record s1 {
      proc_list = update_at s1.proc_list c (record (s1.proc_list c) {
        priority = own + 1;
        tickets_remaining = starting_tickets;
        next_process = s1.proc_priority_list (own + 1);
      });
      proc_priority_list = update_at s1.proc_priority_list (own + 1) (some c);
    }

    abbrev entry : MlfqEntry
    entry = record (s1.proc_list c) {
      priority = own + 1;
      tickets_remaining = starting_tickets;
      next_process = s1.proc_priority_list (own + 1);
    }

    entry_self : (k : ℕ) → k ≡ c → after_push.proc_list k ≡ entry
    entry_self = update_at_self s1.proc_list c entry

    entry_ne : (k : ℕ) → k ≢ c → after_push.proc_list k ≡ s1.proc_list k
    entry_ne = update_at_ne s1.proc_list c entry

    -- The lists without `c` are as they were.
    other_chain :
        (q : ℕ)
        → q < max_priority_queues
        → Chain after_push.proc_list (s1.proc_priority_list q) (without c own a q)
    other_chain q hq =
        Chain_congr s1.proc_list after_push.proc_list (without c own a q) (s1.proc_priority_list q)
          (t.chains q hq)
          (λ k hk. ap (λ (v : MlfqEntry). v.next_process) (entry_ne k (without-elem q k hq hk).0))

    pushed_chain :
        (q : ℕ)
        → q < max_priority_queues
        → Chain after_push.proc_list (after_push.proc_priority_list q) ((moved c a).queue q)
    pushed_chain q hq = elim (ℕ_discrete q (own + 1)) [
      | yes below ↦
          let rest : without c own a (own + 1) ≡ a.queue (own + 1) =
            update_at_ne a.queue own (remove c (a.queue own)) (own + 1) (omega arith) in
          let link : (after_push.proc_list c).next_process ≡ s1.proc_priority_list (own + 1) =
            ap (λ (v : MlfqEntry). v.next_process) (entry_self c refl) in
          rw
            (
              update_at_self s1.proc_priority_list (own + 1) (some c) q below,
              update_at_self (without c own a) (own + 1) (c ∷ a.queue (own + 1)) q below,
            )
            (
              refl,
              subst (λ h. Chain after_push.proc_list h (a.queue (own + 1))) (sym link)
                  (subst (Chain after_push.proc_list (s1.proc_priority_list (own + 1))) rest
                    (other_chain (own + 1) (omega arith))),
            )
      | no other ↦
          rw
            (
              update_at_ne s1.proc_priority_list (own + 1) (some c) q other,
              update_at_ne (without c own a) (own + 1) (c ∷ a.queue (own + 1)) q other,
            )
            (other_chain q hq)
    ]

    push-Implements : Implements after_push (moved c a)
    push-Implements = record {
      apart = moved-IsApart;
      same_current = t.kept_current ∙ imp.same_current;
      same_priority = λ k. elim (ℕ_discrete k c) [
        | yes hit ↦
            ap (λ (v : MlfqEntry). v.priority) (entry_self k hit)
            ∙ sym (update_at_self a.priority c (own + 1) k hit)
        | no miss ↦
            ap (λ (v : MlfqEntry). v.priority) (entry_ne k miss)
            ∙ t.kept_priority k
            ∙ imp.same_priority k
            ∙ sym (update_at_ne a.priority c (own + 1) k miss)
      ];
      same_tickets = λ k. elim (ℕ_discrete k c) [
        | yes hit ↦
            ap (λ (v : MlfqEntry). v.tickets_remaining) (entry_self k hit)
            ∙ sym (update_at_self a.tickets c starting_tickets k hit)
        | no miss ↦
            ap (λ (v : MlfqEntry). v.tickets_remaining) (entry_ne k miss)
            ∙ t.kept_tickets k
            ∙ imp.same_tickets k
            ∙ sym (update_at_ne a.tickets c starting_tickets k miss)
      ];
      linked = pushed_chain;
      no_null = λ q k hq h. elim (moved-elem q k hq h) [
        | inl (hit, below) ↦
            ap (λ (v : MlfqEntry). points_somewhere v.ptr) (entry_self k hit)
            ∙ ap points_somewhere (t.kept_ptr c)
            ∙ imp.no_null own c (omega arith) in_own
        | inr (miss, there) ↦
            ap (λ (v : MlfqEntry). points_somewhere v.ptr) (entry_ne k miss)
            ∙ ap points_somewhere (t.kept_ptr k)
            ∙ imp.no_null q k hq there
      ];
    }

-- The steps of `demote`, each with its result.
demote-steps :
    (c p head : ℕ) (s s1 : Sched)
    → (s.proc_list c).priority ≡ p
    → s.proc_priority_list p ≡ some head
    → take_out head c p s ≡ ok s1
    → (s1.proc_list c).priority ≡ p
    → p < 2
    → demote c s ≡ ok (push (p + 1) c s1)
unfolding demote
demote-steps c p head s s1 level start e level1 hp =
    let in_bounds : ltb (p + 1) max_priority_queues ≡ true = ground (arith, hp) in
    let e' = ap (λ n. take_out head c n s) level ∙ e in
    rw (demote, level, start, e', level1, in_bounds) refl

-- `sched_update` moves the current process without a panic.
pub demote-Implements :
    (c : ℕ) (a : Queues) (s : Sched)
    → Implements s a
    → a.current ≡ some c
    → a.priority c < 2
    → (s' : Sched) × (demote c s ≡ ok s') × Implements s' (moved c a)
unfolding push
demote-Implements c a s imp cur hp =
    let p = a.priority c in
    let level : (s.proc_list c).priority ≡ p = imp.same_priority c in
    let (low, there) = imp.apart.current_in c cur in
    let (head, start, s1, e, t) = take_out-TakenOut c p a s imp.apart low imp.linked there in
    let level1 : (s1.proc_list c).priority ≡ p = t.kept_priority c ∙ level in
    (
      push (p + 1) c s1,
      demote-steps c p head s s1 level start e level1 hp,
      push-Implements c a imp.apart cur hp s s1 imp t,
    )
