-- ===== src/Stdio/Queue.antt =====
-- The ring buffers of kernel/libc/stdio.c as queues of characters.
use koiz_os.Base.{
  ℕ, zero, suc, ◌+◌, ◌%◌, ◌≤◌, ◌<◌, ◌≡◌, ◌≢◌, true, false, List, [], ◌∷◌, ◌++◌, length, get_or,
  ◌==◌, arith, refl, ◌∙◌, ap, sym, add32, u32_mod, append_assoc, append-nil,
}
use koiz_os.Base.Cycle.{distance, distance-lt}
use koiz_os.Kernel.{ok}
use koiz_os.Pmem.{phys_block_size}
use koiz_os.Stdio.{Io, io_buffer_empty, io_buffer_pop, flush_loop, io_buffer_flush_to_screen}

-- A started buffer holds the characters `q`, the oldest first.
pub record Holds (io : Io) (q : List ℕ) : Type 0 where
  pub init : io.buffer.is_init ≡ true
  pub size : io.buffer.b_size ≡ 4096
  pub room : io.buffer.b_addr + 4096 ≤ u32_mod
  pub head : io.buffer.head_ptr < 4096
  pub tail : io.buffer.tail_ptr < 4096
  pub count : length q ≡ distance 4096 io.buffer.tail_ptr io.buffer.head_ptr
  pub chars :
      (i : ℕ)
      → i < length q
      → io.pmem.mem (io.buffer.b_addr + (io.buffer.tail_ptr + i) % 4096) ≡ get_or q i 0
  pub text : (i : ℕ) → i < length q → get_or q i 0 ≢ 0

-- The state after `io_buffer_pop` took a character.
abbrev pub popped : Io → Io
popped io = record io {
  buffer = record (io.buffer) { tail_ptr = (io.buffer.tail_ptr + 1) % io.buffer.b_size };
}

pop-empty : {io : Io} → Holds io [] → io_buffer_pop io ≡ (0, io)
unfolding io_buffer_pop io_buffer_empty
pop-empty {io} h =
    let same : io.buffer.head_ptr ≡ io.buffer.tail_ptr = ground (arith, h.count, h.head, h.tail) in
    ground (arith, h.init)

pop-cons : {io : Io} {c : ℕ} {q : List ℕ} → Holds io (c ∷ q) → io_buffer_pop io ≡ (c, popped io)
unfolding io_buffer_pop io_buffer_empty
pop-cons {io} {c} {q} h =
    let ne : io.buffer.head_ptr ≢ io.buffer.tail_ptr = λ e. ground (arith, h.count, e) in
    let at : add32 io.buffer.b_addr io.buffer.tail_ptr
        ≡ io.buffer.b_addr + (io.buffer.tail_ptr + 0) % 4096 =
      omega (arith, h.tail, h.room) in
    let char : io.pmem.mem (add32 io.buffer.b_addr io.buffer.tail_ptr) ≡ c =
      ap io.pmem.mem at ∙ h.chars 0 (omega arith) in
    let differ : (io.buffer.head_ptr == io.buffer.tail_ptr) ≡ false = ground (arith, ne) in
    rw (h.init, differ, char) refl

distance_less :
    (k a b : ℕ)
    → a < 4096
    → b < 4096
    → suc k ≡ distance 4096 a b
    → k ≡ distance 4096 ((a + 1) % 4096) b
distance_less k a b ha hb e = ground arith

pub distance_more :
    (k a b : ℕ)
    → a < 4096
    → b < 4096
    → k ≡ distance 4096 a b
    → k < 4095
    → k + 1 ≡ distance 4096 a ((b + 1) % 4096)
distance_more k a b ha hb e room = ground arith

popped-Holds : {io : Io} {c : ℕ} {q : List ℕ} → Holds io (c ∷ q) → Holds (popped io) q
popped-Holds {io} {c} {q} h =
    let b = io.buffer in
    let next : (b.tail_ptr + 1) % b.b_size ≡ (b.tail_ptr + 1) % 4096 =
      ap (λ (n : ℕ). (b.tail_ptr + 1) % n) h.size in
    record {
      init = h.init;
      size = h.size;
      room = h.room;
      head = h.head;
      tail = rw next (omega arith);
      count = rw next (distance_less (length q) b.tail_ptr b.head_ptr h.tail h.head h.count);
      chars = λ i hi. rw next (
          ap (λ (a : ℕ). io.pmem.mem (b.b_addr + a)) (omega arith) ∙ h.chars (suc i) (omega arith));
      text = λ i hi. h.text (suc i) (omega arith);
    }

-- The same with the character shown.
abbrev shown : Io → ℕ → Io
shown io c = record (popped io) { screen = io.screen ++ (c ∷ []) }

shown-Holds : {io : Io} {c : ℕ} {q : List ℕ} → Holds io (c ∷ q) → Holds (shown io c) q
shown-Holds {io} h =
    let p = popped-Holds h in
    record {
      init = p.init;
      size = p.size;
      room = p.room;
      head = p.head;
      tail = p.tail;
      count = p.count;
      chars = p.chars;
      text = p.text;
    }

-- `io'` is `io` after all of `q` was shown.
pub record Flushed (io : Io) (q : List ℕ) (io' : Io) : Type 0 where
  pub holds : Holds io' []
  pub screen : io'.screen ≡ io.screen ++ q
  pub same_head : io'.buffer.head_ptr ≡ io.buffer.head_ptr
  pub same_addr : io'.buffer.b_addr ≡ io.buffer.b_addr
  pub same_mode : io'.buffer.autoflush_to_screen ≡ io.buffer.autoflush_to_screen

flush_loop-Flushed :
    (fuel : ℕ) {io : Io} (q : List ℕ)
    → Holds io q
    → length q < fuel
    → (io' : Io) × (flush_loop fuel io ≡ ok io') × Flushed io q io'
unfolding flush_loop
flush_loop-Flushed zero q h enough = absurd (omega arith)
flush_loop-Flushed (suc fuel) {io} [] h enough = (
  io,
  rw (pop-empty h) refl,
  record {
    holds = h;
    screen = sym (append-nil io.screen);
    same_head = refl;
    same_addr = refl;
    same_mode = refl;
  },
)
flush_loop-Flushed (suc fuel) {io} (c ∷ q) h enough =
    let (io', e, f) = flush_loop-Flushed fuel q (shown-Holds h) (omega arith) in
    let text : (c == 0) ≡ false = ground (arith, h.text 0 (omega arith)) in
    (
      io',
      rw (pop-cons h, text) e,
      record {
        holds = f.holds;
        screen = f.screen ∙ append_assoc io.screen (c ∷ []) q;
        same_head = f.same_head;
        same_addr = f.same_addr;
        same_mode = f.same_mode;
      },
    )

-- `io_buffer_flush_to_screen` ends, shows the characters of the queue in their order, and leaves
-- the queue empty.
pub flush-Flushed :
    {io : Io} (q : List ℕ)
    → Holds io q
    → (io' : Io) × (io_buffer_flush_to_screen io ≡ ok io') × Flushed io q io'
unfolding io_buffer_flush_to_screen
flush-Flushed {io} q h =
    flush_loop-Flushed (phys_block_size + 1) q h
      (omega (arith, h.count, distance-lt 4096 io.buffer.tail_ptr io.buffer.head_ptr h.tail h.head))

-- `io_buffer_pop` takes the oldest character; on an empty queue it returns 0 and changes nothing.
pop-Holds :
    {io : Io}
    → (Holds io [] → io_buffer_pop io ≡ (0, io))
      × ((c : ℕ) (q : List ℕ)
          → Holds io (c ∷ q)
          → (io_buffer_pop io ≡ (c, popped io)) × Holds (popped io) q)
pop-Holds = (pop-empty, λ c q h. (pop-cons h, popped-Holds h))
