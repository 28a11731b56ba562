-- ===== src/Buffer/Clock.antt =====
-- lib/storage/buffer/clock_replacer.go and circular_list.go: the frames that may be cached out, in a
-- doubly linked ring. A node is known by its address; nil is none.
pub mod Frames
mod Tests
use samehada_db.Prelude.{
  ℕ, zero, suc, ◌+◌, ◌-◌, ◌%◌, ◌^◌, Bool, true, false, not, ◌&&◌, ◌||◌, Option, none, some, ◌==◌,
  if◌then◌else◌, Outcome, done, panic, blocked, ◌>>=◌,
}
use samehada_db.Buffer.Pool.{put, delete}

pub record Node : Type 0 where
  pub key : ℕ
  pub value : Bool
  pub next : Option ℕ
  pub prev : Option ℕ

-- what `clockHand` points to: the list's `head`, or the `next` of a node
pub data Hand : Type 0 where
  at_head : Hand
  at_next : ℕ → Hand

pub record ClockReplacer : Type 0 where
  pub nodes : ℕ → Node
  pub next_address : ℕ
  pub head : Option ℕ
  pub tail : Option ℕ
  pub size : ℕ
  pub capacity : ℕ
  pub support_map : ℕ → Option ℕ
  pub clock_hand : Hand

abbrev pub write : ℕ → Node → ClockReplacer → ClockReplacer
write a n c = record c { nodes = λ b. if b == a then n else c.nodes b }

-- `p.next = v` and `p.prev = v`, which panic for a nil `p`
abbrev pub set_next : Option ℕ → Option ℕ → ClockReplacer → Outcome ClockReplacer
set_next none v c = panic
set_next (some a) v c = done (write a (record (c.nodes a) { next = v }) c)

abbrev pub set_prev : Option ℕ → Option ℕ → ClockReplacer → Outcome ClockReplacer
set_prev none v c = panic
set_prev (some a) v c = done (write a (record (c.nodes a) { prev = v }) c)

abbrev pub next_of : Option ℕ → ClockReplacer → Outcome (Option ℕ)
next_of none c = panic
next_of (some a) c = done (c.nodes a).next

abbrev pub prev_of : Option ℕ → ClockReplacer → Outcome (Option ℕ)
prev_of none c = panic
prev_of (some a) c = done (c.nodes a).prev

-- Go's `==` on pointers
abbrev pub points_to : Option ℕ → ℕ → Bool
points_to none a = false
points_to (some b) a = b == a

abbrev pub same_pointer : Option ℕ → Option ℕ → Bool
same_pointer none none = true
same_pointer none (some b) = false
same_pointer (some a) p = points_to p a

abbrev pub is_contain : ClockReplacer → ℕ → Bool
is_contain c id = elim (c.support_map id) [ some a ↦ true | none ↦ false ]

-- `insert` of a key that is not there, at the end of a ring that is not empty
unfoldable pub insert_linked : ℕ → Bool → ClockReplacer → Outcome ClockReplacer
insert_linked key value c = do
  let a = c.next_address
  let n : Node = record { key = key; value = value; next = c.head; prev = c.tail }
  let c1 : ClockReplacer = record (write a n c) { next_address = suc a }
  c2 ← set_next c1.tail (some a) c1
  c3 ← (if same_pointer c2.head c2.tail then set_next c2.head (some a) c2 else done c2)
  let c4 : ClockReplacer = record c3 { tail = some a }
  c5 ← set_prev c4.head c4.tail c4
  done (record c5 { size = (c5.size + 1) % 2 ^ 32; support_map = put key a c5.support_map })

abbrev insert_alone : ℕ → Bool → ClockReplacer → ClockReplacer
insert_alone key value c =
    let a = c.next_address in
    record (write a (record { key = key; value = value; next = some a; prev = some a }) c) {
      next_address = suc a;
      head = some a;
      tail = some a;
      size = (c.size + 1) % 2 ^ 32;
      support_map = put key a c.support_map;
    }

unfoldable pub insert : ℕ → Bool → ClockReplacer → Outcome ClockReplacer
unfolding insert_linked
insert key value c =
    if c.size == c.capacity
    then panic
    else if c.size == 0
    then done (insert_alone key value c)
    else elim (c.support_map key) [
      | some b ↦ done (write b (record (c.nodes b) { value = value }) c)
      | none ↦ insert_linked key value c
    ]

-- `remove` of a node from a ring of two or more
unfoldable pub unlink : ℕ → ℕ → ClockReplacer → Outcome ClockReplacer
unlink key a c = do
  head ← (if points_to c.head a then next_of c.head c else done c.head)
  let c1 : ClockReplacer = record c { head = head }
  tail ← (if points_to c1.tail a then prev_of c1.tail c1 else done c1.tail)
  let c2 : ClockReplacer = record c1 { tail = tail }
  c3 ← set_prev (c2.nodes a).next (c2.nodes a).prev c2
  c4 ← set_next (c3.nodes a).prev (c3.nodes a).next c3
  done (record c4 {
    size = (c4.size + 2 ^ 32 - 1) % 2 ^ 32;
    support_map = delete key c4.support_map;
  })

unfoldable pub remove : ℕ → ClockReplacer → Outcome ClockReplacer
unfolding unlink
remove key c = elim (c.support_map key) [
  | none ↦ done c
  | some a ↦
      if c.size == 1
      then done (record c {
        head = none;
        tail = none;
        size = (c.size + 2 ^ 32 - 1) % 2 ^ 32;
        support_map = delete key c.support_map;
      })
      else unlink key a c
]

-- `*clockHand`
abbrev pub at_hand : ClockReplacer → Option ℕ
at_hand c = elim c.clock_hand [ at_head ↦ c.head | at_next a ↦ (c.nodes a).next ]

-- `Victim` where the node's bit is off
unfoldable pub take_victim : ℕ → ClockReplacer → Outcome (ℕ × ClockReplacer)
unfolding remove
take_victim current c = do
  c2 ← remove (c.nodes current).key (record c { clock_hand = at_next current })
  done ((c.nodes current).key, c2)

-- the loop of `Victim`; it does not move `currentNode`
unfoldable pub victim_loop : ℕ → ℕ → ClockReplacer → Outcome (ℕ × ClockReplacer)
unfolding take_victim
victim_loop zero current c = blocked
victim_loop (suc n) current c =
    let c1 : ClockReplacer = record (write current (record (c.nodes current) { value = false }) c) {
      clock_hand = at_next current;
    } in
    let again = victim_loop n current c1 in
    if (c.nodes current).value then again else take_victim current c

-- two rounds are enough
unfoldable pub victim : ClockReplacer → Outcome (ℕ × ClockReplacer)
unfolding victim_loop
victim c =
    if c.size == 0
    then panic
    else elim (at_hand c) [ some current ↦ victim_loop 2 current c | none ↦ panic ]

unfoldable pub unpin : ℕ → ClockReplacer → Outcome ClockReplacer
unfolding insert
unpin id c = if is_contain c id then done c else do
  c1 ← insert id true c
  done (if c1.size == 1 then record c1 { clock_hand = at_head } else c1)

unfoldable pub pin : ℕ → ClockReplacer → Outcome ClockReplacer
unfolding remove
pin id c = elim (c.support_map id) [
  | none ↦ done c
  | some a ↦ remove id (if points_to (at_hand c) a then record c { clock_hand = at_next a } else c)
]

unfoldable pub new_clock_replacer : ℕ → ClockReplacer
new_clock_replacer pool_size = record {
  nodes = λ a. record { key = 0; value = false; next = none; prev = none };
  next_address = 0;
  head = none;
  tail = none;
  size = 0;
  capacity = pool_size;
  support_map = λ k. none;
  clock_hand = at_head;
}
