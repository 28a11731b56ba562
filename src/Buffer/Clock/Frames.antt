-- ===== src/Buffer/Clock/Frames.antt =====
-- The frames that the replacer of lib/storage/buffer/clock_replacer.go holds.
use samehada_db.Prelude.{
  ℕ, ◌≡◌, refl, Bool, true, false, not, ◌&&◌, some, ◌==◌, if◌then◌else◌, arith, Outcome, done,
  panic, blocked, Bool-cases, inl, inr,
}
use samehada_db.Buffer.Pool.{delete}
use samehada_db.Buffer.Clock.{
  Hand, ClockReplacer, is_contain, at_hand, remove, unlink, take_victim, victim_loop, victim, pin,
  at_next, write, points_to,
}

-- The node at this address is in the ring under its key, between two nodes.
pub record IsLinked (c : ClockReplacer) (a : ℕ) : Type 0 where
  pub in_map : c.support_map (c.nodes a).key ≡ some a
  pub before : ℕ
  pub after : ℕ
  pub next_node : (c.nodes a).next ≡ some after
  pub prev_node : (c.nodes a).prev ≡ some before

abbrev returns : {A : Type 0} → Outcome A → Bool
returns (done a) = true
returns panic = false
returns blocked = false

returns_lem : {A : Type 0} (m : Outcome A) → returns m ≡ true → (a : A) × (m ≡ done a)
returns_lem (done a) h = (a, refl)
returns_lem panic h = absurd (ground arith)
returns_lem blocked h = absurd (ground arith)

remove-returns :
    (c : ClockReplacer) (a : ℕ) → IsLinked c a → returns (remove (c.nodes a).key c) ≡ true
unfolding remove unlink
remove-returns c a l = ground (arith, l.in_map, l.next_node, l.prev_node)

remove_map :
    (c c' : ClockReplacer) (a : ℕ)
    → IsLinked c a
    → remove (c.nodes a).key c ≡ done c'
    → (g : ℕ) → c'.support_map g ≡ delete (c.nodes a).key c.support_map g
unfolding remove unlink
remove_map c c' a l e g = ground (arith, l.in_map, l.next_node, l.prev_node)

-- The frame left, and no other one.
pub record IsOut (c : ClockReplacer) (id : ℕ) (c' : ClockReplacer) : Type 0 where
  pub frames : (g : ℕ) → is_contain c' g ≡ (is_contain c g && not (id == g))

IsLinked-hand :
    (c : ClockReplacer) (a : ℕ) (h : Hand) → IsLinked c a → IsLinked (record c { clock_hand = h }) a
IsLinked-hand c a h l = record {
  in_map = l.in_map;
  before = l.before;
  after = l.after;
  next_node = l.next_node;
  prev_node = l.prev_node;
}

abbrev cleared : ClockReplacer → ℕ → ClockReplacer
cleared c a = record (write a (record (c.nodes a) { value = false }) c) { clock_hand = at_next a }

IsLinked-cleared : (c : ClockReplacer) (a : ℕ) → IsLinked c a → IsLinked (cleared c a) a
IsLinked-cleared c a l = record {
  in_map = ground (arith, l.in_map);
  before = l.before;
  after = l.after;
  next_node = ground (arith, l.next_node);
  prev_node = ground (arith, l.prev_node);
}

take_victim_lem :
    (c : ClockReplacer) (a : ℕ)
    → IsLinked c a
    → (c' : ClockReplacer) × (take_victim a c ≡ done ((c.nodes a).key, c'))
      × IsOut c (c.nodes a).key c'
unfolding take_victim
take_victim_lem c a l =
    let c1 = record c { clock_hand = at_next a } in
    let l1 = IsLinked-hand c a (at_next a) l in
    let (c', e) = returns_lem (remove (c.nodes a).key c1) (remove-returns c1 a l1) in
    (c', ground (arith, e), record { frames = λ g. ground (arith, remove_map c1 c' a l1 e g) })

victim_loop_lem :
    (c : ClockReplacer) (a : ℕ)
    → IsLinked c a
    → (c' : ClockReplacer) × (victim_loop 2 a c ≡ done ((c.nodes a).key, c'))
      × IsOut c (c.nodes a).key c'
unfolding victim_loop
victim_loop_lem c a l = elim (Bool-cases (c.nodes a).value) [
  | inl on ↦
      let (c', e, out) = take_victim_lem (cleared c a) a (IsLinked-cleared c a l) in
      (c', ground (arith, e), record { frames = λ g. ground (arith, out.frames g) })
  | inr off ↦ let (c', e, out) = take_victim_lem c a l in (c', ground (arith, e), out)
]

-- Where the replacer is not empty and the clock hand points to a node that is in the map under its
-- key, with a node before and one after it, Victim returns, and the frame is that of this node
-- whether or not its bit is set. The frame leaves the replacer and no other one does.
pub victim_takes_hand :
    (c : ClockReplacer) (a : ℕ)
    → (c.size == 0) ≡ false
    → at_hand c ≡ some a
    → IsLinked c a
    → (c' : ClockReplacer) × (victim c ≡ done ((c.nodes a).key, c')) × IsOut c (c.nodes a).key c'
unfolding victim
victim_takes_hand c a full hand l =
    let (c', e, out) = victim_loop_lem c a l in (c', ground (arith, e), out)

pin_cases :
    (c : ClockReplacer) (a : ℕ)
    → IsLinked c a
    → pin (c.nodes a).key c
      ≡ remove
          (c.nodes a).key
          (if points_to (at_hand c) a then record c { clock_hand = at_next a } else c)
unfolding pin
pin_cases c a l = ground (arith, l.in_map)

-- Pin of a frame whose node is in the map under its key, with a node before and one after it,
-- returns, wherever the clock hand is: the frame leaves the replacer and no other one does.
pub pin_lem :
    (c : ClockReplacer) (a : ℕ)
    → IsLinked c a
    → (c' : ClockReplacer) × (pin (c.nodes a).key c ≡ done c') × IsOut c (c.nodes a).key c'
pin_lem c a l = elim (Bool-cases (points_to (at_hand c) a)) [
  | inl here ↦
      let c1 = record c { clock_hand = at_next a } in
      let l1 = IsLinked-hand c a (at_next a) l in
      let (c', e) = returns_lem (remove (c.nodes a).key c1) (remove-returns c1 a l1) in
      (
        c',
        ground (arith, pin_cases c a l, e),
        record { frames = λ g. ground (arith, remove_map c1 c' a l1 e g) },
      )
  | inr there ↦
      let (c', e) = returns_lem (remove (c.nodes a).key c) (remove-returns c a l) in
      (
        c',
        ground (arith, pin_cases c a l, e),
        record { frames = λ g. ground (arith, remove_map c c' a l e g) },
      )
]
