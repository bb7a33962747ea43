-- ===== src/Sched/Links.antt =====
-- The linked lists of kernel/drivers/process/sched.c: the list that a head leads to, and how
-- `sched_update` takes an entry out of it.
use koiz_os.Base.{
  ℕ, zero, suc, ◌<◌, ◌≡◌, ◌≢◌, ◌⊎◌, inl, inr, true, false, Option, none, some, List, [], ◌∷◌, ◌==◌,
  arith, refl, ◌∙◌, ap, sym, subst, length, Bool-cases, ℕ_discrete,
}
use koiz_os.Kernel.{Result, ok}
use koiz_os.Sched.{MlfqEntry, Sched, update_at, points_to, unlink}
use koiz_os.Sched.Members.{elem, remove, front, next_of, Distinct}

-- A head leads through the entries of a list.
abbrev pub Chain : (ℕ → MlfqEntry) → Option ℕ → List ℕ → Type 0
Chain entries head [] = head ≡ none
Chain entries head (x ∷ xs) = (head ≡ some x) × Chain entries (entries x).next_process xs

-- The links of entries outside the list do not matter.
pub Chain_congr :
    (entries entries' : ℕ → MlfqEntry) (xs : List ℕ) (head : Option ℕ)
    → Chain entries head xs
    → ((k : ℕ) → elem k xs ≡ true → (entries' k).next_process ≡ (entries k).next_process)
    → Chain entries' head xs
Chain_congr entries entries' [] head chain same = chain
Chain_congr entries entries' (x ∷ xs) head (start, chain) same =
    let self : (x == x) ≡ true = ground arith in
    (
      start,
      subst (λ h. Chain entries' h xs) (sym (same x (rw self refl)))
          (Chain_congr entries entries' xs _ chain (λ k h.
            same k
              (elim (Bool-cases (x == k)) [ inl here ↦ rw here refl | inr away ↦ rw away h ]))),
    )

pub Chain-front :
    (entries : ℕ → MlfqEntry) (xs : List ℕ) (head : Option ℕ)
    → Chain entries head xs
    → head ≡ front xs
Chain-front entries [] head chain = chain
Chain-front entries (x ∷ xs) head (start, chain) = start

-- The link of a member leads to what follows it.
pub Chain-next_of :
    (entries : ℕ → MlfqEntry) (c : ℕ) (xs : List ℕ) (head : Option ℕ)
    → Chain entries head xs
    → elem c xs ≡ true
    → (entries c).next_process ≡ next_of c xs
Chain-next_of entries c [] head chain h = absurd (ground (arith, h))
Chain-next_of entries c (x ∷ xs) head (start, chain) h = elim (ℕ_discrete x c) [
  | yes here ↦
      let test : (x == c) ≡ true = ground (arith, here) in
      rw test (ap (λ k. (entries k).next_process) (sym here) ∙ Chain-front entries xs _ chain)
  | no away ↦
      let test : (x == c) ≡ false = ground (arith, away) in
      rw test (Chain-next_of entries c xs _ chain (ground (arith, h, test)))
]

-- `entries'` is `entries` with other links for some entries of the list, not for `c`.
pub record Relinked (c : ℕ) (xs : List ℕ) (entries entries' : ℕ → MlfqEntry) : Type 0 where
  pub outside : (k : ℕ) → elem k xs ≡ false → entries' k ≡ entries k
  pub kept : entries' c ≡ entries c
  pub same_ptr : (k : ℕ) → (entries' k).ptr ≡ (entries k).ptr
  pub same_priority : (k : ℕ) → (entries' k).priority ≡ (entries k).priority
  pub same_tickets : (k : ℕ) → (entries' k).tickets_remaining ≡ (entries k).tickets_remaining

-- One entry gets another link.
Relinked-update :
    (c x : ℕ) (xs : List ℕ) (entries : ℕ → MlfqEntry) (next : Option ℕ)
    → x ≢ c
    → Relinked c (x ∷ xs) entries (update_at entries x (record (entries x) { next_process = next }))
Relinked-update c x xs entries next ne =
    let e' = record (entries x) { next_process = next } in
    let cases : (k : ℕ)
        → ((k ≡ x) × (update_at entries x e' k ≡ e'))
          ⊎ ((k ≢ x) × (update_at entries x e' k ≡ entries k)) =
      λ k. elim (ℕ_discrete k x) [
        | yes here ↦ let test : (k == x) ≡ true = ground (arith, here) in inl (here, rw test refl)
        | no away ↦ let test : (k == x) ≡ false = ground (arith, away) in inr (away, rw test refl)
      ] in
    record {
      outside = λ k h. elim (cases k) [
        | inl (here, e) ↦ absurd (ground (arith, h, here))
        | inr (away, e) ↦ e
      ];
      kept = elim (cases c) [ inl (here, e) ↦ absurd (ne (sym here)) | inr (away, e) ↦ e ];
      same_ptr = λ k. elim (cases k) [
        | inl (here, e) ↦ ap (λ (v : MlfqEntry). v.ptr) e ∙ ap (λ j. (entries j).ptr) (sym here)
        | inr (away, e) ↦ ap (λ (v : MlfqEntry). v.ptr) e
      ];
      same_priority = λ k. elim (cases k) [
        | inl (here, e) ↦
            ap (λ (v : MlfqEntry). v.priority) e ∙ ap (λ j. (entries j).priority) (sym here)
        | inr (away, e) ↦ ap (λ (v : MlfqEntry). v.priority) e
      ];
      same_tickets = λ k. elim (cases k) [
        | inl (here, e) ↦
            ap (λ (v : MlfqEntry). v.tickets_remaining) e
            ∙ ap (λ j. (entries j).tickets_remaining) (sym here)
        | inr (away, e) ↦ ap (λ (v : MlfqEntry). v.tickets_remaining) e
      ];
    }

Relinked-cons :
    {c : ℕ} (x : ℕ) {xs : List ℕ} {entries entries' : ℕ → MlfqEntry}
    → Relinked c xs entries entries'
    → Relinked c (x ∷ xs) entries entries'
Relinked-cons {c} x {xs} r = record {
  outside = λ k h. r.outside k (elim (Bool-cases (x == k)) [
    | inl here ↦ absurd (ground (arith, h, here))
    | inr away ↦ ground (arith, h, away)
  ]);
  kept = r.kept;
  same_ptr = r.same_ptr;
  same_priority = r.same_priority;
  same_tickets = r.same_tickets;
}

test_tail : (x y : ℕ) (xs : List ℕ) → elem x (y ∷ xs) ≡ false → elem x xs ≡ false
test_tail x y xs h = elim (Bool-cases (y == x)) [
  | inl here ↦ absurd (ground (arith, h, here))
  | inr away ↦ ground (arith, h, away)
]

-- `unlink` from the entry `x` on takes `c` out of the list.
abbrev Unlinks : ℕ → ℕ → List ℕ → Sched → Result Sched → Type 0
Unlinks c x xs s out =
    (entries' : ℕ → MlfqEntry) × (out ≡ ok (record s { proc_list = entries' }))
    × Chain entries' (some x) (x ∷ remove c xs)
    × Relinked c (x ∷ xs) s.proc_list entries'

pub unlink-Unlinks :
    (fuel c x : ℕ) (xs : List ℕ) (s : Sched)
    → Chain s.proc_list (some x) (x ∷ xs)
    → Distinct (x ∷ xs)
    → x ≢ c
    → elem c xs ≡ true
    → length xs < fuel
    → Unlinks c x xs s (unlink fuel (some x) c s)
unfolding unlink
unlink-Unlinks zero c x xs s chain d ne h enough = absurd (omega arith)
unlink-Unlinks (suc fuel) c x [] s chain d ne h enough = absurd (ground (arith, h))
unlink-Unlinks (suc fuel) c x (y ∷ xs) s (start, (link, chain)) (fresh, d) ne h enough =
    elim (ℕ_discrete y c) [
      | yes here ↦
          let test : (y == c) ≡ true = ground (arith, here) in
          let points : points_to (s.proc_list x).next_process c ≡ true = rw link test in
          let next = (s.proc_list c).next_process in
          let r = Relinked-update c x (y ∷ xs) s.proc_list next ne in
          let self : (x == x) ≡ true = ground arith in
          let entries' = update_at s.proc_list x (record (s.proc_list x) { next_process = next }) in
          let congr : (k : ℕ)
              → elem k xs ≡ true
              → (entries' k).next_process ≡ (s.proc_list k).next_process =
            λ k hk. elim (ℕ_discrete k x) [
              | yes at ↦
                  absurd (
                    ground (arith, fresh, test_tail x y xs fresh, ap (λ (v : ℕ). elem v xs) at, hk))
              | no off ↦ let away : (k == x) ≡ false = ground (arith, off) in rw away refl
            ] in
          let tail : Chain s.proc_list next xs =
            subst (λ k. Chain s.proc_list (s.proc_list k).next_process xs) here chain in
          let tail' : Chain entries' next xs =
            Chain_congr s.proc_list entries' xs next tail congr in
          rw (points, test) (entries', refl, (refl, rw self tail'), r)
      | no away ↦
          let test : (y == c) ≡ false = ground (arith, away) in
          let points : points_to (s.proc_list x).next_process c ≡ false = rw link test in
          let (entries', e, tail, r) =
            unlink-Unlinks fuel c y xs s (refl, chain) d away (ground (arith, h, test))
              (omega arith) in
          let kept : (entries' x).next_process ≡ some y =
            ap (λ (v : MlfqEntry). v.next_process) (r.outside x fresh) ∙ link in
          rw (points, test)
            (
              entries',
              ap (λ start. unlink fuel start c s) link ∙ e,
              (refl, subst (λ n. Chain entries' n (y ∷ remove c xs)) (sym kept) tail),
              Relinked-cons x r,
            )
    ]
