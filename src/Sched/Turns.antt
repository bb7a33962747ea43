-- ===== src/Sched/Turns.antt =====
-- The round of the processes of one queue in kernel/drivers/process/sched.c: who follows whom.
use koiz_os.Base.{
  ℕ, suc, ◌≡◌, ◌⊎◌, inl, inr, true, false, none, some, List, [], ◌∷◌, ◌++◌, ◌==◌, arith, refl, ◌∙◌,
  ap, sym, subst, length, Bool-cases, ℕ_discrete, append_assoc, append-nil, length-append,
}
use koiz_os.Sched.Members.{elem, front, next_of, Distinct}
use koiz_os.Sched.Queues.{or_else}

-- The process that follows in a queue.
abbrev pub turn : List ℕ → ℕ → ℕ
turn q c = or_else (next_of c q) (front q) c

-- Each process of the list follows the one before, the first one follows `c`.
abbrev pub Follows : List ℕ → ℕ → List ℕ → Type 0
Follows q c [] = Unit {0}
Follows q c (t ∷ ts) = (turn q c ≡ t) × Follows q t ts

abbrev last : ℕ → List ℕ → ℕ
last c [] = c
last c (t ∷ ts) = last t ts

Follows-append :
    (q : List ℕ) (c : ℕ) (ts us : List ℕ)
    → Follows q c ts
    → Follows q (last c ts) us
    → Follows q c (ts ++ us)
Follows-append q c [] us f g = g
Follows-append q c (t ∷ ts) us (e, f) g = (e, Follows-append q t ts us f g)

next_of-append :
    (u : ℕ) (us ws : List ℕ) → elem u us ≡ false → next_of u (us ++ (u ∷ ws)) ≡ front ws
next_of-append u [] ws h = let self : (u == u) ≡ true = ground arith in rw self refl
next_of-append u (x ∷ us) ws h = elim (Bool-cases (x == u)) [
  | inl here ↦ absurd (ground (arith, h, here))
  | inr away ↦ rw away (next_of-append u us ws (ground (arith, h, away)))
]

elem-append_right : (x : ℕ) (us ws : List ℕ) → elem x ws ≡ true → elem x (us ++ ws) ≡ true
elem-append_right x [] ws h = h
elem-append_right x (y ∷ us) ws h = elim (Bool-cases (y == x)) [
  | inl here ↦ rw here refl
  | inr away ↦ rw away (elem-append_right x us ws h)
]

-- What stands before a member of a list without repetitions does not have it.
Distinct-before : (u : ℕ) (us ws : List ℕ) → Distinct (us ++ (u ∷ ws)) → elem u us ≡ false
Distinct-before u [] ws d = refl
Distinct-before u (x ∷ us) ws (fresh, d) = elim (Bool-cases (x == u)) [
  | inl here ↦
      let same : x ≡ u = ground (arith, here) in
      let self : (u == u) ≡ true = ground arith in
      let there : elem u (us ++ (u ∷ ws)) ≡ true = elem-append_right u us (u ∷ ws) (rw self refl) in
      absurd (ground (arith, fresh, there, ap (λ (v : ℕ). elem v (us ++ (u ∷ ws))) same))
  | inr away ↦ rw away (Distinct-before u us ws d)
]

-- The part of a queue behind a member follows it in order.
Follows-part :
    (us : List ℕ) (u : ℕ) (vs ws : List ℕ) (q : List ℕ)
    → q ≡ us ++ (u ∷ (vs ++ ws))
    → Distinct q
    → Follows q u vs
Follows-part us u [] ws q e d = tt
Follows-part us u (v ∷ vs) ws q e d =
    let before = Distinct-before u us (v ∷ (vs ++ ws)) (subst Distinct e d) in
    let next : next_of u q ≡ some v =
      ap (next_of u) e ∙ next_of-append u us (v ∷ (vs ++ ws)) before in
    (
      ap (λ o. or_else o (front q) u) next,
      Follows-part (us ++ (u ∷ [])) v vs ws q (e ∙ sym (append_assoc us (u ∷ []) (v ∷ (vs ++ ws))))
          d,
    )

-- Behind the last process comes the first one.
turn-last :
    (us : List ℕ) (u : ℕ) (vs q : List ℕ)
    → q ≡ us ++ (u ∷ vs)
    → Distinct q
    → next_of (last u vs) q ≡ none
turn-last us u [] q e d =
    ap (next_of u) e ∙ next_of-append u us [] (Distinct-before u us [] (subst Distinct e d))
turn-last us u (v ∷ vs) q e d =
    turn-last (us ++ (u ∷ [])) v vs q (e ∙ sym (append_assoc us (u ∷ []) (v ∷ vs))) d

-- The round of a queue from `c` on: first what is behind `c`, then what is before it.
Follows-round :
    (ys : List ℕ) (c : ℕ) (zs q : List ℕ) → q ≡ ys ++ (c ∷ zs) → Distinct q → Follows q c (zs ++ ys)
Follows-round [] c zs q e d =
    Follows-append q c zs []
      (Follows-part [] c zs [] q (e ∙ ap (λ l. c ∷ l) (sym (append-nil zs))) d) tt
Follows-round (y ∷ ys) c zs q e d =
    let behind =
      Follows-part (y ∷ ys) c zs [] q (e ∙ ap (λ l. (y ∷ ys) ++ (c ∷ l)) (sym (append-nil zs))) d in
    let wrap : turn q (last c zs) ≡ y =
      ap (λ o. or_else o (front q) (last c zs)) (turn-last (y ∷ ys) c zs q e d)
      ∙ ap (λ o. or_else none o (last c zs)) (ap front e) in
    Follows-append q c zs (y ∷ ys) behind (wrap, Follows-part [] y ys (c ∷ zs) q e d)

-- A queue around one of its members.
split :
    (c : ℕ) (q : List ℕ) → elem c q ≡ true → (ys : List ℕ) × (zs : List ℕ) × (q ≡ ys ++ (c ∷ zs))
split c [] h = absurd (ground (arith, h))
split c (x ∷ q) h = elim (ℕ_discrete x c) [
  | yes here ↦ ([], q, ap (λ (v : ℕ). v ∷ q) here)
  | no away ↦
      let test : (x == c) ≡ false = ground (arith, away) in
      let (ys, zs, e) = split c q (ground (arith, h, test)) in (x ∷ ys, zs, ap (λ l. x ∷ l) e)
]

elem-append :
    (x : ℕ) (us ws : List ℕ) → elem x (us ++ ws) ≡ true → (elem x us ≡ true) ⊎ (elem x ws ≡ true)
elem-append x [] ws h = inr h
elem-append x (y ∷ us) ws h = elim (Bool-cases (y == x)) [
  | inl here ↦ inl (rw here refl)
  | inr away ↦ elim (elem-append x us ws (ground (arith, h, away))) [
    | inl before ↦ inl (rw away before)
    | inr behind ↦ inr behind
  ]
]

elem-append_left : (x : ℕ) (us ws : List ℕ) → elem x us ≡ true → elem x (us ++ ws) ≡ true
elem-append_left x [] ws h = absurd (ground (arith, h))
elem-append_left x (y ∷ us) ws h = elim (Bool-cases (y == x)) [
  | inl here ↦ rw here refl
  | inr away ↦ rw away (elem-append_left x us ws (ground (arith, h, away)))
]

-- A round of a queue has all its other members.
pub round_of :
    (c : ℕ) (q : List ℕ)
    → elem c q ≡ true
    → Distinct q
    → (ts : List ℕ) × Follows q c ts
      × (suc (length ts) ≡ length q)
      × ((x : ℕ) → elem x q ≡ true → (x ≡ c) ⊎ (elem x ts ≡ true))
round_of c q h d =
    let (ys, zs, e) = split c q h in
    (
      zs ++ ys,
      Follows-round ys c zs q e d,
      omega (arith, length-append zs ys, length-append ys (c ∷ zs), ap length e),
      λ x there. elim (elem-append x ys (c ∷ zs) (sym (ap (elem x) e) ∙ there)) [
        | inl before ↦ inr (elem-append_right x zs ys before)
        | inr behind ↦ elim (ℕ_discrete x c) [
          | yes here ↦ inl here
          | no away ↦
              let test : (c == x) ≡ false = ground (arith, away) in
              inr (elem-append_left x zs ys (ground (arith, behind, test)))
        ]
      ],
    )
