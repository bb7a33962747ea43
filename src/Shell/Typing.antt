-- ===== src/Shell/Typing.antt =====
-- `shell_update` (kernel/shell/shell.c): the characters that are typed become the line.
use koiz_os.Base.{
  All, ℕ, ◌+◌, ◌≤◌, ◌<◌, ◌≡◌, ◌≢◌, ◌⊎◌, true, false, List, [], ◌∷◌, ◌++◌, ◌==◌, leb, length,
  length-append, arith, refl, subst, ap, ◌∙◌, add32, u32_mod, dec_lt,
}
use koiz_os.Kernel.{Panic, Result, ok, panic, ◌>>=◌}
use koiz_os.Kernel.Memory.{Memory, write8}
use koiz_os.Commands.{World, Junk, text, memory, print}
use koiz_os.Shell.{
  Places, Shell, put_char, type_char, update, execute_command, with_memory, command_buffer_size,
}
use koiz_os.Shell.Split.{Chars, Chars-agree}

-- The characters of a line: not the one that ends the input, nor the one that ends the line.
abbrev pub IsTyped : ℕ → Type 0
IsTyped c = (c ≢ 0) × (c ≢ 10)

-- Each character is printed as it is typed.
abbrev pub echoed : List ℕ → World → World
echoed [] w = w
echoed (c ∷ cs) w = echoed cs (print (text (c ∷ [])) w)

-- What follows the write of a character.
abbrev shown : ℕ → Shell → Result Shell
shown c s = ok (record s { world = print (text (c ∷ [])) s.world })

pub with_memory-echoed :
    (cs : List ℕ) (mem : Memory) (w : World)
    → with_memory mem (echoed cs w) ≡ echoed cs (with_memory mem w)
with_memory-echoed [] mem w = refl
with_memory-echoed (c ∷ cs) mem w = with_memory-echoed cs mem (print (text (c ∷ [])) w)

pub memory-echoed : (cs : List ℕ) (w : World) → memory (echoed cs w) ≡ memory w
memory-echoed [] w = refl
memory-echoed (c ∷ cs) w = memory-echoed cs (print (text (c ∷ [])) w)

Chars-snoc :
    (mem : Memory) (at v : ℕ) (cs : List ℕ)
    → Chars mem at cs
    → mem (at + length cs) ≡ v
    → Chars mem at (cs ++ (v ∷ []))
Chars-snoc mem at v [] h e = (ap mem (omega arith) ∙ e, tt)
Chars-snoc mem at v (c ∷ cs) (here, h) e =
    (here, Chars-snoc mem (at + 1) v cs h (ap mem (omega arith) ∙ e))

-- `cs` lies at `at`, and nothing else has changed.
pub record Typed (at : ℕ) (cs : List ℕ) (mem mem' : Memory) : Type 0 where
  pub chars : Chars mem' at cs
  pub outside : (b : ℕ) → (b < at) ⊎ (at + length cs ≤ b) → mem' b ≡ mem b

module _ (places : Places) (junk : Junk) (room : places.command_buffer + 1024 ≤ u32_mod) where
  put_char-fits :
      (c ptr : ℕ) (w : World)
      → ptr < 1024
      → put_char places c (record { world = w; command_buffer_ptr = ptr })
        ≡ ok (record {
          world = with_memory (write8 (memory w) (places.command_buffer + ptr) c) w;
          command_buffer_ptr = ptr + 1;
        })
  unfolding put_char
  put_char-fits c ptr w h =
      let test : leb command_buffer_size ptr ≡ false = ground arith in
      let to : add32 places.command_buffer ptr ≡ places.command_buffer + ptr = omega arith in
      rw (test, to) refl

  put_char-overruns :
      (c ptr : ℕ) (w : World)
      → 1024 ≤ ptr
      → put_char places c (record { world = w; command_buffer_ptr = ptr }) ≡ panic Panic.overrun
  unfolding put_char
  put_char-overruns c ptr w h =
      let test : leb command_buffer_size ptr ≡ true = ground arith in rw test refl

  update-char :
      (c ptr : ℕ) (cs : List ℕ) (w : World)
      → IsTyped c
      → update places junk (c ∷ cs) (record { world = w; command_buffer_ptr = ptr }) ≡ (
          put_char places c (record { world = w; command_buffer_ptr = ptr })
          >>= shown c
          >>= update places junk cs)
  unfolding update type_char
  update-char c ptr cs w (nonzero, no_enter) =
      let zero_test : (c == 0) ≡ false = ground (arith, nonzero) in
      let enter_test : (c == 10) ≡ false = ground (arith, no_enter) in
      rw (zero_test, enter_test) refl

  -- The loop over characters that fit.
  update-run :
      (cs rest : List ℕ) (ptr : ℕ) (w : World)
      → All IsTyped cs
      → ptr + length cs ≤ 1024
      → (mem' : Memory) × Typed (places.command_buffer + ptr) cs (memory w) mem'
        × (update places junk (cs ++ rest) (record { world = w; command_buffer_ptr = ptr })
            ≡ update places junk rest (record {
              world = echoed cs (with_memory mem' w);
              command_buffer_ptr = ptr + length cs;
            }))
  update-run [] rest ptr w typed h = (
    memory w,
    record { chars = tt; outside = λ b out. refl },
    ap (λ p. update places junk rest (record { world = w; command_buffer_ptr = p })) (omega arith),
  )
  update-run (c ∷ cs) rest ptr w (char, typed) h =
      let at = places.command_buffer + ptr in
      let mem1 = write8 (memory w) at c in
      let w1 = print (text (c ∷ [])) (with_memory mem1 w) in
      let (mem', inside, e) = update-run cs rest (ptr + 1) w1 typed (omega arith) in
      let next : places.command_buffer + (ptr + 1) ≡ at + 1 = omega arith in
      let here : (at == at) ≡ true = ground arith in
      (
        mem',
        record {
          chars = (
            inside.outside at (omega arith) ∙ rw here refl,
            subst (λ a. Chars mem' a cs) next inside.chars,
          );
          outside = λ b out.
              let away : (at == b) ≡ false = ground (arith, out) in
              inside.outside b (omega (arith, out)) ∙ rw away refl;
        },
        update-char c ptr (cs ++ rest) w char
            ∙ ap (λ r. r >>= shown c >>= update places junk (cs ++ rest))
                (put_char-fits c ptr w (omega arith))
            ∙ e
            ∙ ap
                (λ p.
                  update places junk rest (record {
                    world = echoed (c ∷ cs) (with_memory mem' w);
                    command_buffer_ptr = p;
                  }))
                (omega arith),
      )

  -- The end of the line.
  update-enter :
      (ptr : ℕ) (rest : List ℕ) (w : World)
      → ptr < 1024
      → update places junk (10 ∷ rest) (record { world = w; command_buffer_ptr = ptr }) ≡ (
          execute_command places junk
            (with_memory (write8 (memory w) (places.command_buffer + ptr) 0) w)
          >>= update places junk rest)
  unfolding update type_char
  update-enter ptr rest w h = rw (put_char-fits 0 ptr w h) refl

  update-overruns :
      (cs rest : List ℕ) (ptr : ℕ) (w : World)
      → All IsTyped cs
      → ptr ≤ 1024
      → 1024 ≤ ptr + length cs
      → update places junk (cs ++ (10 ∷ rest)) (record { world = w; command_buffer_ptr = ptr })
        ≡ panic Panic.overrun
  unfolding update type_char
  update-overruns [] rest ptr w typed lo hi = rw (put_char-overruns 0 ptr w (omega arith)) refl
  update-overruns (c ∷ cs) rest ptr w (char, typed) lo hi = elim (dec_lt ptr 1024) [
    | yes fits ↦
        update-char c ptr (cs ++ (10 ∷ rest)) w char
        ∙ ap (λ r. r >>= shown c >>= update places junk (cs ++ (10 ∷ rest)))
            (put_char-fits c ptr w fits)
        ∙ update-overruns cs rest (ptr + 1)
            (print (text (c ∷ []))
              (with_memory (write8 (memory w) (places.command_buffer + ptr) c) w))
            typed (omega arith) (omega arith)
    | no full ↦
        update-char c ptr (cs ++ (10 ∷ rest)) w char
        ∙ ap (λ r. r >>= shown c >>= update places junk (cs ++ (10 ∷ rest)))
            (put_char-overruns c ptr w (omega arith))
  ]

  -- With an empty command buffer that lies within 32 bits: a line of at most 1023 characters is
  -- printed while it is typed and executed when it ends, with the line and a terminator at the
  -- start of the command buffer and all other memory as it was, and the input goes on behind it. A
  -- longer line is written behind the buffer.
  pub update-line :
      (cs rest : List ℕ) (w : World)
      → All IsTyped cs
      → (length cs < 1024
          → (mem' : Memory) × Typed places.command_buffer (cs ++ (0 ∷ [])) (memory w) mem'
            × (update places junk (cs ++ (10 ∷ rest)) (record { world = w; command_buffer_ptr = 0 })
                ≡ (execute_command places junk (echoed cs (with_memory mem' w))
                    >>= update places junk rest)))
        × (1024 ≤ length cs
            → update places junk (cs ++ (10 ∷ rest)) (record { world = w; command_buffer_ptr = 0 })
              ≡ panic Panic.overrun)
  update-line cs rest w typed = (
    λ short.
        let at = places.command_buffer in
        let (mem1, inside, e) = update-run cs (10 ∷ rest) 0 w typed (omega arith) in
        let last = at + length cs in
        let mem2 = write8 mem1 last 0 in
        let w1 = echoed cs (with_memory mem1 w) in
        let same : memory w1 ≡ mem1 = memory-echoed cs (with_memory mem1 w) in
        let whole = length-append cs (0 ∷ []) in
        let here : (last == last) ≡ true = ground arith in
        (
          mem2,
          record {
            chars =
                Chars-snoc mem2 at 0 cs
                  (Chars-agree mem1 mem2 at cs
                    (λ b lo hi. let away : (last == b) ≡ false = ground (arith, hi) in rw away refl)
                    (subst (λ a. Chars mem1 a cs) (omega arith) inside.chars))
                  (rw here refl);
            outside = λ b out.
                let away : (last == b) ≡ false = ground (arith, out, whole) in
                (rw away refl) ∙ inside.outside b (omega (arith, out, whole));
          },
          e
              ∙ update-enter (0 + length cs) rest w1 (omega arith)
              ∙ ap (λ (x : World). execute_command places junk x >>= update places junk rest)
                  (ap (λ m. with_memory m w1) (rw same (ap (λ n. write8 mem1 n 0) (omega arith)))
                    ∙ with_memory-echoed cs mem2 (with_memory mem1 w)),
        ),
    λ long. update-overruns cs rest 0 w typed (omega arith) (omega arith),
  )
