-- ===== src/Sched/Top.antt =====
-- The search of `sched_update` (kernel/drivers/process/sched.c) for a queue that is not empty.
use koiz_os.Base.{
  ℕ, zero, suc, ◌+◌, ◌≤◌, ◌<◌, ◌≡◌, true, Option, none, some, List, [], ◌∷◌, ◌==◌, arith, refl, ◌∙◌,
  ap,
}
use koiz_os.Sched.{Sched, max_priority_queues, first_head}
use koiz_os.Sched.Members.{elem, front}
use koiz_os.Sched.Links.{Chain-front}
use koiz_os.Sched.Queues.{Queues, IsApart, Implements, top}

-- A process is in the queue of its priority.
abbrev pub InQueue : Queues → ℕ → Type 0
InQueue a c = (a.priority c < max_priority_queues) × (elem c (a.queue (a.priority c)) ≡ true)

-- Another current process.
pub with_current :
    {a : Queues} {s : Sched} (o o' : Option ℕ)
    → Implements s a
    → o ≡ o'
    → ((c : ℕ) → o' ≡ some c → InQueue a c)
    → Implements (record s { current_process = o }) (record a { current = o' })
with_current {a} {s} o o' imp same inside = record {
  apart = record {
    distinct = imp.apart.distinct;
    own_queue = imp.apart.own_queue;
    in_table = imp.apart.in_table;
    current_in = inside;
  };
  same_current = same;
  same_priority = imp.same_priority;
  same_tickets = imp.same_tickets;
  linked = imp.linked;
  no_null = imp.no_null;
}

pub queue_InQueue :
    {a : Queues}
    → IsApart a
    → (p c : ℕ) → p < max_priority_queues
    → elem c (a.queue p) ≡ true
    → InQueue a c
queue_InQueue {a} apart p c hp h =
    let own = apart.own_queue p c hp h in
    (omega (arith, own), ap (λ (q : ℕ). elem c (a.queue q)) own ∙ h)

-- What `top` finds is in the queue that it names.
abbrev pub TopIn : Queues → Option (ℕ × ℕ) → Type 0
TopIn a none = Unit {0}
TopIn a (some (j, x)) = (j < max_priority_queues) × (elem x (a.queue j) ≡ true)

pub front_elem : (x : ℕ) (xs : List ℕ) → elem x (x ∷ xs) ≡ true
front_elem x xs = let self : (x == x) ≡ true = ground arith in rw self refl

top_case :
    (a : Queues) (i : ℕ) (rest : Option (ℕ × ℕ)) (l : List ℕ)
    → i < max_priority_queues
    → a.queue i ≡ l
    → TopIn a rest
    → TopIn a (elim l [ [] ↦ rest | x ∷ xs ↦ some (i, x) ])
top_case a i rest [] hi e h = h
top_case a i rest (x ∷ xs) hi e h = (hi, ap (elem x) e ∙ front_elem x xs)

pub top-TopIn : (a : Queues) (n i : ℕ) → i + n ≤ max_priority_queues → TopIn a (top n i a)
unfolding top
top-TopIn a zero i h = tt
top-TopIn a (suc n) i h =
    top_case a i (top n (i + 1) a) (a.queue i) (omega arith) refl
      (top-TopIn a n (i + 1) (omega arith))

abbrev pub else_found : Option ℕ → Option (ℕ × ℕ) → Option ℕ
else_found found none = found
else_found found (some (i, x)) = some x

first_head_case :
    (i : ℕ) (found rest : Option ℕ) (rest' : Option (ℕ × ℕ)) (l : List ℕ)
    → rest ≡ else_found found rest'
    → elim (front l) as (λ o. Option ℕ) [ none ↦ rest | some head ↦ some head ]
      ≡ else_found found (elim l [ [] ↦ rest' | x ∷ xs ↦ some (i, x) ])
first_head_case i found rest rest' [] h = h
first_head_case i found rest rest' (x ∷ xs) h = refl

pub first_head-top :
    (a : Queues) (s : Sched) (found : Option ℕ) (n i : ℕ)
    → Implements s a
    → i + n ≤ max_priority_queues
    → first_head n i found s ≡ else_found found (top n i a)
unfolding first_head top
first_head-top a s found zero i imp h = refl
first_head-top a s found (suc n) i imp h =
    let head =
      Chain-front s.proc_list (a.queue i) (s.proc_priority_list i) (imp.linked i (omega arith)) in
    rw (first_head, head)
      (first_head_case i found (first_head n (i + 1) found s) (top n (i + 1) a) (a.queue i)
        (first_head-top a s found n (i + 1) imp (omega arith)))
