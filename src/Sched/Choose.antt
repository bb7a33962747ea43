-- ===== src/Sched/Choose.antt =====
-- The last part of `sched_update` (kernel/drivers/process/sched.c): the choice of the next process.
use koiz_os.Base.{
  ℕ, ◌≡◌, inl, inr, Bool, true, false, Option, none, some, List, [], ◌∷◌, ◌==◌, ltb, if◌then◌else◌,
  arith, refl, ◌∙◌, ap, sym, subst, Bool-cases, ℕ_discrete,
}
use koiz_os.Sched.{Sched, max_priority_queues, next_in_line, choose}
use koiz_os.Sched.Members.{elem, front, next_of}
use koiz_os.Sched.Links.{Chain-front, Chain-next_of}
use koiz_os.Sched.Queues.{Queues, Implements, points_somewhere, top, or_else, after, pick}
use koiz_os.Sched.Move.{some_inj}
use koiz_os.Sched.Top.{
  InQueue, with_current, queue_InQueue, TopIn, front_elem, top-TopIn, else_found, first_head-top,
}

pub some_cases : (o : Option ℕ) → points_somewhere o ≡ true → (r : ℕ) × (o ≡ some r)
some_cases none h = absurd (ground (arith, h))
some_cases (some r) h = (r, refl)

-- `next_in_line` by its links.
abbrev pub line : Option ℕ → Option ℕ → ℕ → Option ℕ
line (some next) o c = some next
line none (some head) c = some head
line none none c = some c

line-or_else : (o o' : Option ℕ) (c : ℕ) → line o o' c ≡ some (or_else o o' c)
line-or_else (some x) o' c = refl
line-or_else none (some x) c = refl
line-or_else none none c = refl

next_in_line-line :
    (o o' : Option ℕ) (c : ℕ)
    → (elim o as (λ x. Option ℕ) [
      | some next ↦ some next
      | none ↦ elim o' as (λ x. Option ℕ) [ some head ↦ some head | none ↦ some c ]
    ])
      ≡ line o o' c
next_in_line-line (some x) o' c = refl
next_in_line-line none (some x) c = refl
next_in_line-line none none c = refl

pub front-elem : (x : ℕ) (xs : List ℕ) → front xs ≡ some x → elem x xs ≡ true
front-elem x [] h = absurd (ground (arith, ap points_somewhere h))
front-elem x (y ∷ xs) h = ap (λ (v : ℕ). elem x (v ∷ xs)) (some_inj h) ∙ front_elem x xs

pub elem_later : (x y : ℕ) (xs : List ℕ) → elem x xs ≡ true → elem x (y ∷ xs) ≡ true
elem_later x y xs h = elim (Bool-cases (y == x)) [ inl here ↦ rw here refl | inr away ↦ rw away h ]

pub next_of-elem : (c x : ℕ) (xs : List ℕ) → next_of c xs ≡ some x → elem x xs ≡ true
next_of-elem c x [] h = absurd (ground (arith, ap points_somewhere h))
next_of-elem c x (y ∷ xs) h = elim (ℕ_discrete y c) [
  | yes here ↦
      let test : (y == c) ≡ true = ground (arith, here) in
      let e : front xs ≡ some x =
        sym (ap (λ (b : Bool). if b then front xs else next_of c xs) test) ∙ h in
      elem_later x y xs (front-elem x xs e)
  | no away ↦
      let test : (y == c) ≡ false = ground (arith, away) in
      let e : next_of c xs ≡ some x =
        sym (ap (λ (b : Bool). if b then front xs else next_of c xs) test) ∙ h in
      elem_later x y xs (next_of-elem c x xs e)
]

pub or_else-elem :
    (o o' : Option ℕ) (c : ℕ) (xs : List ℕ)
    → ((x : ℕ) → o ≡ some x → elem x xs ≡ true)
    → ((x : ℕ) → o' ≡ some x → elem x xs ≡ true)
    → elem c xs ≡ true
    → elem (or_else o o' c) xs ≡ true
or_else-elem (some x) o' c xs next head self = next x refl
or_else-elem none (some x) c xs next head self = head x refl
or_else-elem none none c xs next head self = self

module _ (c : ℕ) (a : Queues) (s : Sched) (imp : Implements s a) (inside : InQueue a c) where
  next_in_line-after : next_in_line c s ≡ some (after c a)
  unfolding next_in_line after
  next_in_line-after =
      let p = a.priority c in
      let next =
        Chain-next_of s.proc_list c (a.queue p) (s.proc_priority_list p) (imp.linked p inside.0)
          inside.1 in
      let head =
        ap s.proc_priority_list (imp.same_priority c)
        ∙ Chain-front s.proc_list (a.queue p) (s.proc_priority_list p) (imp.linked p inside.0) in
      next_in_line-line ((s.proc_list c).next_process)
        (s.proc_priority_list ((s.proc_list c).priority)) c
      ∙ ap (λ o. line o (s.proc_priority_list ((s.proc_list c).priority)) c) next
      ∙ ap (λ o. line (next_of c (a.queue p)) o c) head
      ∙ line-or_else (next_of c (a.queue p)) (front (a.queue p)) c

  after-InQueue : InQueue a (after c a)
  unfolding after
  after-InQueue =
      let l = a.queue (a.priority c) in
      queue_InQueue imp.apart (a.priority c) (or_else (next_of c l) (front l) c) inside.0 (
        or_else-elem (next_of c l) (front l) c l (λ x. next_of-elem c x l) (λ x. front-elem x l)
          inside.1)

  -- The choice between a process of a higher queue and the next one in line.
  abbrev switch : ℕ → Option ℕ
  switch x =
      if (s.proc_list c).priority == 0
      then next_in_line c s
      else (if ltb (s.proc_list x).priority (s.proc_list c).priority
          then some x
          else next_in_line c s)

  switch-higher :
      (x i : ℕ)
      → (s.proc_list x).priority ≡ i
      → switch x ≡ some (if ltb i (a.priority c) then x else after c a)
  switch-higher x i level =
      let own = imp.same_priority c in
      let line = next_in_line-after in
      elim (Bool-cases (ltb i (a.priority c))) [
        | inl higher ↦
            let not_top : ((s.proc_list c).priority == 0) ≡ false = ground (arith, higher, own) in
            let test : ltb (s.proc_list x).priority (s.proc_list c).priority ≡ true =
              ground (arith, higher, own, level) in
            rw (higher, not_top, test) refl
        | inr same ↦
            let test : ltb (s.proc_list x).priority (s.proc_list c).priority ≡ false =
              ground (arith, same, own, level) in
            elim (Bool-cases ((s.proc_list c).priority == 0)) [
              | inl first ↦ rw (same, first) line
              | inr lower ↦ rw (same, lower, test) line
            ]
      ]

  choose_case :
      (o : Option (ℕ × ℕ))
      → TopIn a o
      → (elim (else_found (some c) o) as (λ o. Option ℕ) [
        | none ↦ next_in_line c s
        | some x ↦ switch x
      ])
        ≡ some (elim o as (λ o. ℕ) [
          | none ↦ after c a
          | some (i, x) ↦ if ltb i (a.priority c) then x else after c a
        ])
  choose_case none h =
      let p = a.priority c in
      let same : ltb p p ≡ false = ground arith in
      switch-higher c p (imp.same_priority c) ∙ ap some (rw same refl)
  choose_case (some (i, x)) (low, there) =
      switch-higher x i (imp.same_priority x ∙ imp.apart.own_queue i x low there)

  choose-pick : choose c s ≡ some (pick c a)
  unfolding choose pick
  choose-pick =
      rw (choose, first_head-top a s (some c) max_priority_queues 0 imp (omega arith))
        (choose_case (top max_priority_queues 0 a)
          (top-TopIn a max_priority_queues 0 (omega arith)))

  pick_case :
      (o : Option (ℕ × ℕ))
      → TopIn a o
      → InQueue a (elim o as (λ o. ℕ) [
        | none ↦ after c a
        | some (i, x) ↦ if ltb i (a.priority c) then x else after c a
      ])
  pick_case none h = after-InQueue
  pick_case (some (i, x)) (low, there) = elim (Bool-cases (ltb i (a.priority c))) [
    | inl higher ↦ rw higher (queue_InQueue imp.apart i x low there)
    | inr same ↦ rw same after-InQueue
  ]

  pick-InQueue : InQueue a (pick c a)
  unfolding pick
  pick-InQueue =
      pick_case (top max_priority_queues 0 a) (top-TopIn a max_priority_queues 0 (omega arith))

  pub picked :
      Implements
        (record s { current_process = choose c s })
        (record a { current = some (pick c a) })
  picked =
      with_current (choose c s) (some (pick c a)) imp choose-pick
        (λ k e. subst (InQueue a) (some_inj e) pick-InQueue)
