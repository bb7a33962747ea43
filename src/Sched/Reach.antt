-- ===== src/Sched/Reach.antt =====
-- Every state that kernel/drivers/process/sched.c reaches: any sequence of `sched_addpid` and
-- `sched_update` after `sched_init`.
use koiz_os.Base.{
  ℕ, zero, suc, ◌<◌, ◌≡◌, ◌↔◌, inl, inr, true, false, none, some, List, [], ◌∷◌, ◌==◌, arith, refl,
  ◌∙◌, ap, sym, subst, Bool-cases, ℕ_discrete,
}
use koiz_os.Kernel.{ok, panic, diverge}
use koiz_os.Process.{Processes, get}
use koiz_os.Sched.{Sched, update_at, init, addpid, update}
use koiz_os.Sched.Members.{elem}
use koiz_os.Sched.Queues.{Queues, Implements, points_somewhere, add, tick}
use koiz_os.Sched.Top.{front_elem}
use koiz_os.Sched.Choose.{elem_later}
use koiz_os.Sched.Tick.{update-tick}
use koiz_os.Sched.Add.{Fresh, addpid-Implements}
use koiz_os.Sched.Kept.{Scheduled, tick-Scheduled, add-Scheduled}

-- No process in any queue.
abbrev pub no_queues : Sched → Queues
no_queues s = record {
  queue = λ p. [];
  priority = λ c. (s.proc_list c).priority;
  tickets = λ c. (s.proc_list c).tickets_remaining;
  current = none;
}

pub init-Implements : (s : Sched) → s.current_process ≡ none → Implements (init s) (no_queues s)
unfolding init
init-Implements s idle = record {
  apart = record {
    distinct = λ p hp. tt;
    own_queue = λ p c hp h. absurd (ground (arith, h));
    in_table = λ p c hp h. absurd (ground (arith, h));
    current_in = λ c e. absurd (ground (arith, ap points_somewhere e));
  };
  same_current = idle;
  same_priority = λ c. refl;
  same_tickets = λ c. refl;
  linked = λ p hp.
      elim p
          as (λ p.
            p < 3
            → update_at (update_at (update_at s.proc_priority_list 0 none) 1 none) 2 none p
              ≡ none) [
                | zero ↦ λ h. refl
                | suc p ↦
                    elim p
                      as (λ p.
                        suc p < 3
                        → update_at (update_at (update_at s.proc_priority_list 0 none) 1 none) 2
                            none (suc p)
                          ≡ none) [
                            | zero ↦ λ h. refl
                            | suc p ↦
                                elim p
                                  as (λ p.
                                    suc (suc p) < 3
                                    → update_at
                                        (update_at (update_at s.proc_priority_list 0 none) 1 none) 2
                                        none (suc (suc p))
                                      ≡ none) [
                                        | zero ↦ λ h. refl
                                        | suc p ↦ λ h. absurd (omega arith)
                                      ]
                          ]
              ]
        hp;
  no_null = λ p c hp h. absurd (ground (arith, h));
}

-- The states of the scheduler, with the processes that were added, in any order of the calls. A
-- process is added once, while it is in use.
pub data Reaches : List ℕ → Sched → Type 0 where
  started : (s : Sched) → s.current_process ≡ none → Reaches [] (init s)
  added :
      (pids : List ℕ) (s s' : Sched) (processes : Processes) (pid r : ℕ)
      → Reaches pids s
      → get pid processes ≡ some r
      → elem pid pids ≡ false
      → addpid processes pid s ≡ ok s'
      → Reaches (pid ∷ pids) s'
  updated : (pids : List ℕ) (s s' : Sched) → Reaches pids s → update s ≡ ok s' → Reaches pids s'

-- Queues that the state holds, with exactly the processes that were added.
abbrev pub Holds : List ℕ → Sched → Type 0
Holds pids s = (a : Queues) × Implements s a × ((k : ℕ) → Scheduled a k ↔ (elem k pids ≡ true))

ok_inj : {s s' : Sched} → ok s ≡ ok s' → s ≡ s'
ok_inj {s} e = ap (λ o. elim o [ ok z ↦ z | panic p ↦ s | diverge ↦ s ]) e

added-Holds :
    (pids : List ℕ) (s s' : Sched) (processes : Processes) (pid r : ℕ)
    → Holds pids s
    → get pid processes ≡ some r
    → elem pid pids ≡ false
    → addpid processes pid s ≡ ok s'
    → Holds (pid ∷ pids) s'
added-Holds pids s s' processes pid r (a, imp, same) found fresh e =
    let off : Fresh pid a = λ p hp. elim (Bool-cases (elem pid (a.queue p))) [
      | inl there ↦ absurd (ground (arith, fresh, (same pid).0 (p, hp, there)))
      | inr away ↦ away
    ] in
    let (s1, e1, imp1) = addpid-Implements pid a s processes r imp found off in
    (
      add pid a,
      subst (λ z. Implements z (add pid a)) (ok_inj (sym e1 ∙ e)) imp1,
      λ k. (
        λ h. elim ((add-Scheduled pid a k).0 h) [
          | inl hit ↦ ap (λ (v : ℕ). elem v (pid ∷ pids)) hit ∙ front_elem pid pids
          | inr there ↦ elem_later k pid pids ((same k).0 there)
        ],
        λ h. (add-Scheduled pid a k).1 (elim (ℕ_discrete k pid) [
          | yes hit ↦ inl hit
          | no miss ↦ inr (
              (same k).1
                (let test : (pid == k) ≡ false = ground (arith, miss) in ground (arith, h, test)))
        ]),
      ),
    )

updated-Holds : (pids : List ℕ) (s s' : Sched) → Holds pids s → update s ≡ ok s' → Holds pids s'
updated-Holds pids s s' (a, imp, same) e =
    let (s1, e1, imp1) = update-tick a s imp in
    (
      tick a,
      subst (λ z. Implements z (tick a)) (ok_inj (sym e1 ∙ e)) imp1,
      λ k.
          let kept = tick-Scheduled a imp.apart k in
          (λ h. (same k).0 (kept.0 h), λ h. kept.1 ((same k).1 h)),
    )

-- Every state that is reached holds three queues, apart from each other, with exactly the
-- processes that were added.
pub Reaches-Holds : {pids : List ℕ} {s : Sched} → Reaches pids s → Holds pids s
Reaches-Holds (started s idle) = (
  no_queues s,
  init-Implements s idle,
  λ k. (λ (p, hp, h). absurd (ground (arith, h)), λ h. absurd (ground (arith, h))),
)
Reaches-Holds (added pids s s' processes pid r run found fresh e) =
    added-Holds pids s s' processes pid r (Reaches-Holds run) found fresh e
Reaches-Holds (updated pids s s' run e) = updated-Holds pids s s' (Reaches-Holds run) e

-- In every state that is reached, `sched_update` returns, without a panic, and so does `sched_addpid` of a
-- process that is in use and was not added before.
pub Reaches-goes_on :
    {pids : List ℕ} {s : Sched}
    → Reaches pids s
    → ((s' : Sched) × (update s ≡ ok s') × Reaches pids s')
      × ((processes : Processes) (pid r : ℕ)
          → get pid processes ≡ some r
          → elem pid pids ≡ false
          → (s' : Sched) × (addpid processes pid s ≡ ok s') × Reaches (pid ∷ pids) s')
Reaches-goes_on {pids} {s} run =
    let (a, imp, same) = Reaches-Holds run in
    let (s1, e1, imp1) = update-tick a s imp in
    (
      (s1, e1, updated pids s s1 run e1),
      λ processes pid r found fresh.
          let off : Fresh pid a = λ p hp. elim (Bool-cases (elem pid (a.queue p))) [
            | inl there ↦ absurd (ground (arith, fresh, (same pid).0 (p, hp, there)))
            | inr away ↦ away
          ] in
          let (s2, e2, imp2) = addpid-Implements pid a s processes r imp found off in
          (s2, e2, added pids s s2 processes pid r run found fresh e2),
    )
