-- ===== src/Sched/Refine.antt =====
-- `sched_update` (kernel/drivers/process/sched.c) takes an entry out of its linked list and puts it
-- at the head of the next one: the queues that the links hold then.
use koiz_os.Base.{
  ℕ, ◌+◌, ◌≤◌, ◌<◌, ◌≡◌, ◌≢◌, inl, inr, true, false, some, List, [], ◌∷◌, ◌==◌, if◌then◌else◌,
  arith, refl, ◌∙◌, ap, sym, subst, length, Bool-cases, ℕ_discrete,
}
use koiz_os.Kernel.{Result, ok}
use koiz_os.Process.{max_processes}
use koiz_os.Sched.{MlfqEntry, Sched, max_priority_queues, update_at, unlink}
use koiz_os.Sched.Members.{elem, remove, Distinct, length-Distinct}
use koiz_os.Sched.Links.{Chain, Chain_congr, Chain-front, unlink-Unlinks}
use koiz_os.Sched.Queues.{Queues, IsApart}

module _ {ℓ} {A : Type ℓ} (f : ℕ → A) (i : ℕ) (v : A) where
  pub update_at_self : (k : ℕ) → k ≡ i → update_at f i v k ≡ v
  update_at_self k h = let test : (k == i) ≡ true = ground (arith, h) in rw test refl

  pub update_at_ne : (k : ℕ) → k ≢ i → update_at f i v k ≡ f k
  update_at_ne k h = let test : (k == i) ≡ false = ground (arith, h) in rw test refl

-- A process in one queue is in no other.
pub not_elsewhere :
    {a : Queues}
    → IsApart a
    → (p q k : ℕ) → p < max_priority_queues
    → q < max_priority_queues
    → p ≢ q
    → elem k (a.queue q) ≡ true
    → elem k (a.queue p) ≡ false
not_elsewhere {a} apart p q k hp hq ne h = elim (Bool-cases (elem k (a.queue p))) [
  | inl there ↦ absurd (ne (sym (apart.own_queue p k hp there) ∙ apart.own_queue q k hq h))
  | inr away ↦ away
]

-- The queues without the process `c` of the queue `p`.
abbrev pub without : ℕ → ℕ → Queues → ℕ → List ℕ
without c p a = update_at a.queue p (remove c (a.queue p))

-- `s1` is `s` without the entry `c` in the list `p`.
pub record TakenOut (c p : ℕ) (a : Queues) (s s1 : Sched) : Type 0 where
  pub chains :
      (q : ℕ)
      → q < max_priority_queues
      → Chain s1.proc_list (s1.proc_priority_list q) (without c p a q)
  pub kept_ptr : (k : ℕ) → (s1.proc_list k).ptr ≡ (s.proc_list k).ptr
  pub kept_priority : (k : ℕ) → (s1.proc_list k).priority ≡ (s.proc_list k).priority
  pub kept_tickets :
      (k : ℕ) → (s1.proc_list k).tickets_remaining ≡ (s.proc_list k).tickets_remaining
  pub kept_current : s1.current_process ≡ s.current_process

-- The two ways in which `sched_update` takes out the entry `c`, whose list starts with `head`.
abbrev pub take_out : ℕ → ℕ → ℕ → Sched → Result Sched
take_out head c p s =
    if head == c
    then ok (record s {
      proc_priority_list = update_at s.proc_priority_list p ((s.proc_list c).next_process);
    })
    else unlink (max_processes + 1) (some head) c s

module _ (c p x : ℕ) (xs : List ℕ) (a : Queues) (s : Sched) (apart : IsApart a)
    (hp : p < max_priority_queues)
    (linked : (q : ℕ)
      → q < max_priority_queues
      → Chain s.proc_list (s.proc_priority_list q) (a.queue q))
    (list : a.queue p ≡ x ∷ xs) where
  queue_chain : Chain s.proc_list (s.proc_priority_list p) (x ∷ xs)
  queue_chain = subst (λ l. Chain s.proc_list (s.proc_priority_list p) l) list (linked p hp)

  take_out_head : x ≡ c → (s1 : Sched) × (take_out x c p s ≡ ok s1) × TakenOut c p a s s1
  take_out_head here =
      let test : (x == c) ≡ true = ground (arith, here) in
      let next = (s.proc_list c).next_process in
      let (start, tail) = queue_chain in
      let gone : remove c (a.queue p) ≡ xs = ap (remove c) list ∙ rw test refl in
      let tail' : Chain s.proc_list next xs =
        subst (λ k. Chain s.proc_list (s.proc_list k).next_process xs) here tail in
      let s1 = record s { proc_priority_list = update_at s.proc_priority_list p next } in
      (
        s1,
        rw test refl,
        record {
          chains = λ q hq. elim (ℕ_discrete q p) [
            | yes own ↦
                rw
                  (
                    update_at_self s.proc_priority_list p next q own,
                    update_at_self a.queue p (remove c (a.queue p)) q own,
                    gone,
                  )
                  tail'
            | no other ↦
                rw
                  (
                    update_at_ne s.proc_priority_list p next q other,
                    update_at_ne a.queue p (remove c (a.queue p)) q other,
                  )
                  (linked q hq)
          ];
          kept_ptr = λ k. refl;
          kept_priority = λ k. refl;
          kept_tickets = λ k. refl;
          kept_current = refl;
        },
      )

  -- The loop finds the entry within its fuel.
  take_out_later :
      x ≢ c
      → elem c (a.queue p) ≡ true
      → (s1 : Sched) × (take_out x c p s ≡ ok s1) × TakenOut c p a s s1
  take_out_later away h =
      let test : (x == c) ≡ false = ground (arith, away) in
      let d : Distinct (x ∷ xs) = subst Distinct list (apart.distinct p hp) in
      let few : length (x ∷ xs) ≤ max_processes =
        length-Distinct max_processes (x ∷ xs) d
          (λ k hk. apart.in_table p k hp (ap (elem k) list ∙ hk)) in
      let h' : elem c (x ∷ xs) ≡ true = ap (elem c) (sym list) ∙ h in
      let later : elem c xs ≡ true = ground (arith, h', test) in
      let (start, tail) = queue_chain in
      let gone : x ∷ remove c xs ≡ remove c (a.queue p) = sym (ap (remove c) list ∙ rw test refl) in
      let (entries', e, chain, r) =
        unlink-Unlinks (max_processes + 1) c x xs s (refl, tail) d away later
          (omega (arith, few)) in
      let s1 = record s { proc_list = entries' } in
      (
        s1,
        rw test e,
        record {
          chains = λ q hq. elim (ℕ_discrete q p) [
            | yes own ↦
                let head : s.proc_priority_list q ≡ some x = ap s.proc_priority_list own ∙ start in
                rw (update_at_self a.queue p (remove c (a.queue p)) q own) (
                  subst (λ h. Chain entries' h (remove c (a.queue p))) (sym head)
                    (subst (Chain entries' (some x)) gone chain))
            | no other ↦ rw (update_at_ne a.queue p (remove c (a.queue p)) q other) (
                Chain_congr s.proc_list entries' (a.queue q) (s.proc_priority_list q) (linked q hq)
                  (λ k hk.
                    ap (λ (v : MlfqEntry). v.next_process)
                      (r.outside k (
                        ap (elem k) (sym list)
                        ∙ not_elsewhere apart p q k hp hq (λ same. other (sym same)) hk))))
          ];
          kept_ptr = r.same_ptr;
          kept_priority = r.same_priority;
          kept_tickets = r.same_tickets;
          kept_current = refl;
        },
      )

-- A list that has the entry is not empty, and the entry can be taken out of it.
pub take_out-TakenOut :
    (c p : ℕ) (a : Queues) (s : Sched)
    → IsApart a
    → p < max_priority_queues
    → ((q : ℕ) → q < max_priority_queues → Chain s.proc_list (s.proc_priority_list q) (a.queue q))
    → elem c (a.queue p) ≡ true
    → (head : ℕ) × (s.proc_priority_list p ≡ some head)
      × (s1 : Sched) × (take_out head c p s ≡ ok s1)
      × TakenOut c p a s s1
take_out-TakenOut c p a s apart hp linked h =
    let step : (l : List ℕ)
        → a.queue p ≡ l
        → (head : ℕ) × (s.proc_priority_list p ≡ some head)
          × (s1 : Sched) × (take_out head c p s ≡ ok s1)
          × TakenOut c p a s s1 =
      λ l.
        elim l
          as (λ l.
            a.queue p ≡ l
            → (head : ℕ) × (s.proc_priority_list p ≡ some head)
              × (s1 : Sched) × (take_out head c p s ≡ ok s1)
              × TakenOut c p a s s1) [
                | [] ↦ λ list. absurd (ground (arith, ap (elem c) list, h))
                | x ∷ xs ↦ λ list.
                    let head : s.proc_priority_list p ≡ some x =
                      Chain-front s.proc_list (x ∷ xs) (s.proc_priority_list p)
                        (queue_chain c p x xs a s apart hp linked list) in
                    let out : (s1 : Sched) × (take_out x c p s ≡ ok s1) × TakenOut c p a s s1 =
                      elim (ℕ_discrete x c) [
                        | yes here ↦ take_out_head c p x xs a s apart hp linked list here
                        | no away ↦ take_out_later c p x xs a s apart hp linked list away h
                      ] in
                    (x, head, out.0, out.1, out.2)
              ] in
    step (a.queue p) refl
