-- ===== src/Stdio/Place.antt =====
-- `io_buffer_place` (kernel/libc/stdio.c): what happens to the characters of a message.
use koiz_os.Base.{
  ℕ, suc, ◌+◌, ◌%◌, ◌≤◌, ◌<◌, ◌≡◌, ◌≢◌, ◌⊎◌, inl, inr, true, false, ◌&&◌, List, [], ◌∷◌, ◌++◌,
  length, get_or, ◌==◌, arith, refl, ◌∙◌, ap, sym, subst, add32, length-append, get_or-append_left,
  get_or-append_last, append_assoc, append-nil, dec_lt,
}
use koiz_os.Base.Cycle.{distance, distance-lt}
use koiz_os.Kernel.{ok, panic, Panic}
use koiz_os.Kernel.Memory.{write8}
use koiz_os.Pmem.{Pmem}
use koiz_os.Pmem.Valid.{IsValid}
use koiz_os.Pmem.Alloc.{alloc-page, alloc_outcome}
use koiz_os.Stdio.{Io, lazy_init, place_char, place_loop, io_buffer_place}
use koiz_os.Stdio.Queue.{Holds, Flushed, flush-Flushed, distance_more}

abbrev stored_at : Io → ℕ → ℕ → ℕ → Io
stored_at io addr next c = record io {
  pmem = record (io.pmem) { mem = write8 io.pmem.mem (add32 addr io.buffer.head_ptr) c };
  buffer = record (io.buffer) { head_ptr = next };
}

-- The state after a character was stored at the head.
abbrev stored : Io → ℕ → Io
stored io c = stored_at io io.buffer.b_addr ((io.buffer.head_ptr + 1) % io.buffer.b_size) c

-- A place of the queue is not its head.
place-ne_head :
    (n a b i : ℕ) → a < 4096 → b < 4096 → n ≡ distance 4096 a b → i < n → (a + i) % 4096 ≢ b
place-ne_head n a b i ha hb e h = ground arith

place-head : (n a b : ℕ) → a < 4096 → b < 4096 → n ≡ distance 4096 a b → (a + n) % 4096 ≡ b
place-head n a b ha hb e = ground arith

stored-Holds :
    {io : Io} {q : List ℕ} (c : ℕ)
    → Holds io q
    → length q < 4095
    → c ≢ 0
    → Holds (stored io c) (q ++ (c ∷ []))
stored-Holds {io} {q} c h few text =
    let b = io.buffer in
    let next : (b.head_ptr + 1) % b.b_size ≡ (b.head_ptr + 1) % 4096 =
      ap (λ (n : ℕ). (b.head_ptr + 1) % n) h.size in
    let len = length-append q (c ∷ []) in
    record {
      init = h.init;
      size = h.size;
      room = h.room;
      head = rw next (omega arith);
      tail = h.tail;
      count =
          len ∙ rw next (distance_more (length q) b.tail_ptr b.head_ptr h.tail h.head h.count few);
      chars = λ i hi. elim (dec_lt i (length q)) [
        | yes old ↦
            let off = place-ne_head (length q) b.tail_ptr b.head_ptr i h.tail h.head h.count old in
            let apart : add32 b.b_addr b.head_ptr ≢ b.b_addr + (b.tail_ptr + i) % 4096 =
              omega (arith, h.room, h.head, off) in
            let kept : (add32 b.b_addr b.head_ptr == b.b_addr + (b.tail_ptr + i) % 4096) ≡ false =
              ground (arith, apart) in
            rw kept (h.chars i old) ∙ sym (get_or-append_left q (c ∷ []) i 0 old)
        | no new ↦
            let last : i ≡ length q = omega (arith, len, hi, new) in
            let at : (b.tail_ptr + i) % 4096 ≡ b.head_ptr =
              ap (λ (k : ℕ). (b.tail_ptr + k) % 4096) last
              ∙ place-head (length q) b.tail_ptr b.head_ptr h.tail h.head h.count in
            let here : (add32 b.b_addr b.head_ptr == b.b_addr + (b.tail_ptr + i) % 4096) ≡ true =
              ground (arith, at, h.room, h.head) in
            rw here (sym (get_or-append_last q c i 0 last))
      ];
      text = λ i hi. elim (dec_lt i (length q)) [
        | yes old ↦ λ e. h.text i old (sym (get_or-append_left q (c ∷ []) i 0 old) ∙ e)
        | no new ↦ λ e. text (sym (get_or-append_last q c i 0 (omega (arith, len, hi, new))) ∙ e)
      ];
    }

-- The next place after the head is the tail exactly when the queue is full.
full :
    (n a b : ℕ)
    → a < 4096
    → b < 4096
    → n ≡ distance 4096 a b
    → ((n < 4095) × ((b + 1) % 4096 ≢ a)) ⊎ ((n ≡ 4095) × ((b + 1) % 4096 ≡ a))
full n a b ha hb e = ground arith

module _ {io : Io} {q : List ℕ} (c : ℕ) (h : Holds io q) where
  abbrev next_head : ℕ
  next_head = (io.buffer.head_ptr + 1) % io.buffer.b_size

  next_head-eq : next_head ≡ (io.buffer.head_ptr + 1) % 4096
  next_head-eq = ap (λ (n : ℕ). (io.buffer.head_ptr + 1) % n) h.size

  place_char-room : length q < 4095 → place_char c io ≡ ok (stored io c)
  unfolding place_char
  place_char-room few =
      elim (full (length q) io.buffer.tail_ptr io.buffer.head_ptr h.tail h.head h.count) [
        | inl (_, ne) ↦
            let away : (next_head == io.buffer.tail_ptr) ≡ false =
              ground (arith, ne, next_head-eq) in
            let still : (next_head == next_head) ≡ true = ground arith in
            rw (away, still, away) refl
        | inr (all, _) ↦ absurd (omega (arith, all))
      ]

  place_char-overflow :
      length q ≡ 4095
      → io.buffer.autoflush_to_screen ≡ false
      → place_char c io ≡ panic Panic.stdio_overflow
  unfolding place_char
  place_char-overflow all mode =
      elim (full (length q) io.buffer.tail_ptr io.buffer.head_ptr h.tail h.head h.count) [
        | inl (few, _) ↦ absurd (omega (arith, all))
        | inr (_, same) ↦
            let meets : (next_head == io.buffer.tail_ptr) ≡ true =
              ground (arith, same, next_head-eq) in
            let still : (next_head == next_head) ≡ true = ground arith in
            rw (meets, mode, still, meets) refl
      ]

  -- The queue is full, and shown to make room.
  place_char-flush :
      length q ≡ 4095
      → io.buffer.autoflush_to_screen ≡ true
      → (io1 : Io) × (place_char c io ≡ ok (stored io1 c)) × Flushed io q io1
  unfolding place_char
  place_char-flush all mode =
      elim (full (length q) io.buffer.tail_ptr io.buffer.head_ptr h.tail h.head h.count) [
        | inl (few, _) ↦ absurd (omega (arith, all))
        | inr (_, same) ↦
            let (io1, e, f) = flush-Flushed q h in
            let test : ((next_head == io.buffer.tail_ptr) && io.buffer.autoflush_to_screen) ≡ true =
              ground (arith, same, next_head-eq, mode) in
            let next1 : (io1.buffer.head_ptr + 1) % io1.buffer.b_size
                ≡ (io.buffer.head_ptr + 1) % 4096 =
              ap (λ (n : ℕ). (io1.buffer.head_ptr + 1) % n) f.holds.size
              ∙ ap (λ (a : ℕ). (a + 1) % 4096) f.same_head in
            let still : (next_head == (io1.buffer.head_ptr + 1) % io1.buffer.b_size) ≡ true =
              ground (arith, next1, next_head-eq) in
            let empty : io1.buffer.tail_ptr ≡ io1.buffer.head_ptr =
              ground (arith, f.holds.count, f.holds.head, f.holds.tail) in
            let away : (next_head == io1.buffer.tail_ptr) ≡ false =
              ground (arith, empty, f.same_head, next_head-eq, h.head) in
            (
              io1,
              rw test (
                  rw e (
                    rw (still, away)
                      (ap (λ (a : ℕ). ok (stored_at io1 a next_head c)) (sym f.same_addr)
                        ∙ ap (λ (n : ℕ). ok (stored_at io1 io1.buffer.b_addr n c))
                            (next_head-eq ∙ sym next1)))),
              f,
            )
      ]

-- After `message` was placed behind the queue `q`: what was shown and what is still in the queue
-- are the old queue and the message, in order and without loss.
pub record Placed (io : Io) (q message : List ℕ) (io' : Io) : Type 0 where
  pub queue : List ℕ
  pub holds : Holds io' queue
  pub order : io'.screen ++ queue ≡ io.screen ++ (q ++ message)
  pub same_mode : io'.buffer.autoflush_to_screen ≡ io.buffer.autoflush_to_screen

place_char-Placed :
    {io : Io} {q : List ℕ} (c : ℕ)
    → Holds io q
    → c ≢ 0
    → io.buffer.autoflush_to_screen ≡ true
    → (io' : Io) × (place_char c io ≡ ok io') × Placed io q (c ∷ []) io'
place_char-Placed {io} {q} c h text mode =
    elim (full (length q) io.buffer.tail_ptr io.buffer.head_ptr h.tail h.head h.count) [
      | inl (few, _) ↦ (
        stored io c,
        place_char-room c h few,
        record {
          queue = q ++ (c ∷ []);
          holds = stored-Holds c h few text;
          order = refl;
          same_mode = refl;
        },
      )
      | inr (all, _) ↦
          let (io1, e, f) = place_char-flush c h all mode in
          (
            stored io1 c,
            e,
            record {
              queue = c ∷ [];
              holds = stored-Holds c f.holds (omega arith) text;
              order = ap (λ l. l ++ (c ∷ [])) f.screen ∙ append_assoc io.screen q (c ∷ []);
              same_mode = f.same_mode;
            },
          )
    ]

-- The bytes of a C string before its terminator.
abbrev pub IsText : List ℕ → Type 0
IsText message = (i : ℕ) → i < length message → get_or message i 0 ≢ 0

place_loop-Placed :
    (message : List ℕ) {io : Io} {q : List ℕ}
    → Holds io q
    → IsText message
    → io.buffer.autoflush_to_screen ≡ true
    → (io' : Io) × (place_loop message io ≡ ok io') × Placed io q message io'
unfolding place_loop
place_loop-Placed [] {io} {q} h text mode = (
  io,
  refl,
  record {
    queue = q;
    holds = h;
    order = ap (λ l. io.screen ++ l) (sym (append-nil q));
    same_mode = refl;
  },
)
place_loop-Placed (c ∷ message) {io} {q} h text mode =
    let (io1, e, p) = place_char-Placed c h (text 0 (omega arith)) mode in
    let (io', e', p') =
      place_loop-Placed message p.holds (λ i hi. text (suc i) (omega arith)) (p.same_mode ∙ mode) in
    let goes : (c == 0) ≡ false = ground (arith, text 0 (omega arith)) in
    (
      io',
      rw (goes, e) e',
      record {
        queue = p'.queue;
        holds = p'.holds;
        order =
            p'.order
            ∙ sym (append_assoc io1.screen p.queue message)
            ∙ ap (λ l. l ++ message) p.order
            ∙ append_assoc io.screen (q ++ (c ∷ [])) message
            ∙ ap (λ l. io.screen ++ l) (append_assoc q (c ∷ []) message);
        same_mode = p'.same_mode ∙ p.same_mode;
      },
    )

place_loop_unflushed :
    (message : List ℕ) {io : Io} {q : List ℕ}
    → Holds io q
    → IsText message
    → io.buffer.autoflush_to_screen ≡ false
    → ((length q + length message ≤ 4095)
        × ((io' : Io) × (place_loop message io ≡ ok io') × Holds io' (q ++ message)))
      ⊎ ((4095 < length q + length message) × (place_loop message io ≡ panic Panic.stdio_overflow))
unfolding place_loop
place_loop_unflushed [] {io} {q} h text mode = inl (
  omega (arith, h.count, distance-lt 4096 io.buffer.tail_ptr io.buffer.head_ptr h.tail h.head),
  (io, refl, subst (Holds io) (sym (append-nil q)) h),
)
place_loop_unflushed (c ∷ message) {io} {q} h text mode =
    let goes : (c == 0) ≡ false = ground (arith, text 0 (omega arith)) in
    let len = length-append q (c ∷ []) in
    elim (full (length q) io.buffer.tail_ptr io.buffer.head_ptr h.tail h.head h.count) [
      | inr (all, _) ↦ inr (omega (arith, all), rw (goes, place_char-overflow c h all mode) refl)
      | inl (few, _) ↦
          elim (place_loop_unflushed message (stored-Holds c h few (text 0 (omega arith)))
            (λ i hi. text (suc i) (omega arith)) mode) [
              | inl (fits, (io', e, holds)) ↦ inl (
                omega (arith, fits, len),
                (
                  io',
                  rw (goes, place_char-room c h few) e,
                  subst (Holds io') (append_assoc q (c ∷ []) message) holds,
                ),
              )
              | inr (past, e) ↦ inr (omega (arith, past, len), rw (goes, place_char-room c h few) e)
            ]
    ]

-- The state after the first use took the page at `ptr`.
abbrev started : Io → ℕ → Pmem → Io
started io ptr pm = record io {
  pmem = pm;
  buffer = record (io.buffer) {
    is_initializing = false;
    is_init = true;
    b_addr = ptr;
    b_size = 4096;
  };
}

-- The first use of a buffer takes a page of pmem and finds the queue empty, or panics for lack of
-- physical memory.
lazy_init-Holds :
    {io : Io}
    → IsValid io.pmem
    → io.buffer.is_init ≡ false
    → io.buffer.is_initializing ≡ false
    → io.buffer.head_ptr ≡ 0
    → io.buffer.tail_ptr ≡ 0
    → ((io' : Io) × (lazy_init io ≡ ok io') × Placed io [] [] io' × IsValid io'.pmem)
      ⊎ (lazy_init io ≡ panic Panic.pmem_out_of_memory)
unfolding lazy_init
lazy_init-Holds {io} v fresh calm head tail = elim (alloc_outcome io.pmem v) [
  | inl (ptr, pm', e, g) ↦
      let (valid, _, _, room) = alloc-page v e in
      inl (
        started io ptr pm',
        rw (fresh, calm) (rw e refl),
        record {
          queue = [];
          holds = record {
            init = refl;
            size = refl;
            room = omega (arith, room, v.fits);
            head = omega (arith, head);
            tail = omega (arith, tail);
            count = ground (arith, head, tail);
            chars = λ i h. elim h [ ];
            text = λ i h. elim h [ ];
          };
          order = refl;
          same_mode = refl;
        },
        valid,
      )
  | inr (e, used) ↦ inr (rw (fresh, calm) (rw e refl))
]

-- The same call on a started buffer.
place_started :
    (io : Io) (message : List ℕ)
    → io.buffer.is_init ≡ true
    → io_buffer_place message io ≡ place_loop message io
unfolding io_buffer_place lazy_init
place_started io message ready = rw ready refl

-- On a started buffer that is flushed to the screen when it is full (the standard output),
-- `io_buffer_place` takes a message of non-zero bytes and any length: it ends without a panic, and no character is
-- lost, doubled or reordered between the screen and the queue.
pub io_buffer_place-Placed :
    (message : List ℕ) {io : Io} {q : List ℕ}
    → Holds io q
    → IsText message
    → io.buffer.autoflush_to_screen ≡ true
    → (io' : Io) × (io_buffer_place message io ≡ ok io') × Placed io q message io'
io_buffer_place-Placed message {io} {q} h text mode =
    rw (place_started io message h.init) (place_loop-Placed message h text mode)

-- On a started buffer that is not flushed (the standard input), a message of non-zero bytes that leaves one place free
-- is added to the queue, and a longer one panics.
pub io_buffer_place_unflushed :
    (message : List ℕ) {io : Io} {q : List ℕ}
    → Holds io q
    → IsText message
    → io.buffer.autoflush_to_screen ≡ false
    → ((length q + length message ≤ 4095)
        × ((io' : Io) × (io_buffer_place message io ≡ ok io') × Holds io' (q ++ message)))
      ⊎ ((4095 < length q + length message)
          × (io_buffer_place message io ≡ panic Panic.stdio_overflow))
io_buffer_place_unflushed message {io} {q} h text mode =
    rw (place_started io message h.init) (place_loop_unflushed message h text mode)
