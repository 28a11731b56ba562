-- ===== src/Buffer/Clock/Tests.antt =====
-- Runs of lib/storage/buffer/clock_replacer.go.
use samehada_db.Prelude.{
  ℕ, ◌≡◌, refl, true, some, none, List, [], ◌∷◌, Outcome, done, ◌>>=◌, if◌then◌else◌, ◌==◌,
}
use samehada_db.Buffer.Clock.{
  ClockReplacer, at_head, victim, pin, unpin, new_clock_replacer, insert, insert_linked, remove,
  unlink, take_victim, victim_loop,
}
use samehada_db.Buffer.Clock.Frames.{IsLinked, IsOut, victim_takes_hand, pin_lem}

-- Frames 5, 6 and 7 come in; 6 is pinned; the others leave in the order in which they came.
abbrev three_victims : Outcome (List ℕ)
unfolding new_clock_replacer unpin insert insert_linked victim victim_loop take_victim remove unlink
    pin
three_victims = do
  c1 ← unpin 5 (new_clock_replacer 3)
  c2 ← unpin 6 c1
  c3 ← unpin 7 c2
  c4 ← pin 6 c3
  (f, c5) ← victim c4
  (g, c6) ← victim c5
  done (f ∷ g ∷ [])

three_victims_run : three_victims ≡ done (5 ∷ 7 ∷ [])
unfolding three_victims
three_victims_run = refl

-- two frames, 5 at the hand
abbrev ring : ClockReplacer
ring = record {
  nodes = λ a.
      if a == 0
      then record { key = 5; value = true; next = some 1; prev = some 1 }
      else record { key = 6; value = true; next = some 0; prev = some 0 };
  next_address = 2;
  head = some 0;
  tail = some 1;
  size = 2;
  capacity = 3;
  support_map = λ k. if k == 5 then some 0 else if k == 6 then some 1 else none;
  clock_hand = at_head;
}

ring-IsLinked : IsLinked ring 0
ring-IsLinked = record { in_map = refl; before = 1; after = 1; next_node = refl; prev_node = refl }

victim_takes_hand_example : (c' : ClockReplacer) × (victim ring ≡ done (5, c')) × IsOut ring 5 c'
victim_takes_hand_example = victim_takes_hand ring 0 refl refl ring-IsLinked

pin_example : (c' : ClockReplacer) × (pin 5 ring ≡ done c') × IsOut ring 5 c'
pin_example = pin_lem ring 0 ring-IsLinked
