-- ===== src/Sched/Kept.antt =====
-- The calls of kernel/drivers/process/sched.c lose no process.
use koiz_os.Base.{
  ℕ, ◌+◌, ◌<◌, ◌≡◌, ◌≢◌, ◌↔◌, ◌⊎◌, inl, inr, true, false, Option, none, some, ◌∷◌, ◌==◌, ltb, arith,
  refl, ◌∙◌, ap, sym, subst, Bool-cases, ℕ_discrete,
}
use koiz_os.Sched.{max_priority_queues, full_timeslice_cost}
use koiz_os.Sched.Members.{elem, remove, elem-remove}
use koiz_os.Sched.Queues.{Queues, IsApart, add, pay, tick}
use koiz_os.Sched.Refine.{update_at_self, update_at_ne, without}
use koiz_os.Sched.Move.{moved, moved-elem, in_own}
use koiz_os.Sched.Top.{front_elem}
use koiz_os.Sched.Choose.{elem_later}
use koiz_os.Sched.Tick.{tick-idle, tick-busy}
use koiz_os.Sched.Add.{add-elem, add-keeps}

-- A process is in one of the queues.
abbrev pub Scheduled : Queues → ℕ → Type 0
Scheduled a c = (p : ℕ) × (p < max_priority_queues) × (elem c (a.queue p) ≡ true)

module _ (c : ℕ) (a : Queues) (apart : IsApart a) (cur : a.current ≡ some c)
    (hp : a.priority c < 2) where
  moved_below : elem c ((moved c a).queue (a.priority c + 1)) ≡ true
  moved_below =
      let p = a.priority c in
      ap (elem c) (update_at_self (without c p a) (p + 1) (c ∷ a.queue (p + 1)) (p + 1) refl)
      ∙ front_elem c (a.queue (p + 1))

  moved-keeps :
      (q k : ℕ)
      → q < max_priority_queues
      → k ≢ c
      → elem k (a.queue q) ≡ true
      → elem k ((moved c a).queue q) ≡ true
  moved-keeps q k hq miss h =
      let p = a.priority c in
      elim (ℕ_discrete q (p + 1)) [
        | yes below ↦
            ap (elem k) (update_at_self (without c p a) (p + 1) (c ∷ a.queue (p + 1)) q below)
            ∙ elem_later k c (a.queue (p + 1)) (ap (λ (v : ℕ). elem k (a.queue v)) (sym below) ∙ h)
        | no other ↦
            ap (elem k) (update_at_ne (without c p a) (p + 1) (c ∷ a.queue (p + 1)) q other)
            ∙ elim (ℕ_discrete q p) [
              | yes here ↦
                  let test : (c == k) ≡ false = ground (arith, miss) in
                  let there : elem k (a.queue p) ≡ true =
                    ap (λ (v : ℕ). elem k (a.queue v)) (sym here) ∙ h in
                  ap (elem k) (update_at_self a.queue p (remove c (a.queue p)) q here)
                  ∙ elem-remove c k (a.queue p) (apart.distinct p (omega arith))
                  ∙ rw test there
              | no free ↦ ap (elem k) (update_at_ne a.queue p (remove c (a.queue p)) q free) ∙ h
            ]
      ]

  moved-Scheduled : (k : ℕ) → Scheduled (moved c a) k ↔ Scheduled a k
  moved-Scheduled k = (
    λ (q, hq, h). elim (moved-elem c a apart cur hp q k hq h) [
      | inl (hit, below) ↦ (
        a.priority c,
        omega (arith, hp),
        ap (λ (v : ℕ). elem v (a.queue (a.priority c))) hit ∙ in_own c a apart cur hp,
      )
      | inr (miss, there) ↦ (q, hq, there)
    ],
    λ (q, hq, h). elim (ℕ_discrete k c) [
      | yes hit ↦ (
        a.priority c + 1,
        omega (arith, hp),
        ap (λ (v : ℕ). elem v ((moved c a).queue (a.priority c + 1))) hit ∙ moved_below,
      )
      | no miss ↦ (q, hq, moved-keeps q k hq miss h)
    ],
  )

pay-Scheduled :
    (c : ℕ) (a : Queues)
    → IsApart a
    → a.current ≡ some c
    → (k : ℕ) → Scheduled (pay c a) k ↔ Scheduled a k
unfolding pay
pay-Scheduled c a apart cur k = elim (Bool-cases (ltb (a.tickets c) full_timeslice_cost)) [
  | inl out ↦ elim (Bool-cases (ltb (a.priority c) 2)) [
    | inl upper ↦ rw (out, upper) (moved-Scheduled c a apart cur (ground (arith, upper)) k)
    | inr lowest ↦ rw (out, lowest) (λ h. h, λ h. h)
  ]
  | inr left ↦ rw left (λ h. h, λ h. h)
]

-- A tick loses no process and adds none.
pub tick-Scheduled : (a : Queues) → IsApart a → (k : ℕ) → Scheduled (tick a) k ↔ Scheduled a k
tick-Scheduled a apart k =
    let step : (o : Option ℕ) → a.current ≡ o → Scheduled (tick a) k ↔ Scheduled a k = λ o.
      elim o as (λ o. a.current ≡ o → Scheduled (tick a) k ↔ Scheduled a k) [
        | none ↦ λ cur.
            subst (λ b. Scheduled b k ↔ Scheduled a k) (sym (tick-idle a cur)) (λ h. h, λ h. h)
        | some c ↦ λ cur.
            subst (λ b. Scheduled b k ↔ Scheduled a k) (sym (tick-busy c a cur))
              (pay-Scheduled c a apart cur k)
      ] in
    step a.current refl

pub add-Scheduled :
    (pid : ℕ) (a : Queues) (k : ℕ) → Scheduled (add pid a) k ↔ ((k ≡ pid) ⊎ Scheduled a k)
unfolding add
add-Scheduled pid a k = (
  λ (q, hq, h). elim (add-elem pid a q k h) [
    | inl (hit, top) ↦ inl hit
    | inr there ↦ inr (q, hq, there)
  ],
  λ o. elim o [
    | inl hit ↦
        (0, omega arith, ap (λ (v : ℕ). elem v (pid ∷ a.queue 0)) hit ∙ front_elem pid (a.queue 0))
    | inr (q, hq, h) ↦ (q, hq, add-keeps pid a q k h)
  ],
)
