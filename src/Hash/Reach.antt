-- ===== src/Hash/Reach.antt =====
-- What a walk round the ring of lib/container/hash/linear_probe_hash_table.go sees, finds and fills.
pub mod Change
use samehada_db.Prelude.{
  ℕ, zero, suc, ◌+◌, ◌-◌, ◌<◌, ◌≤◌, ◌≡◌, ◌≢◌, ◌↔◌, refl, sym, ap, subst, ◌∙◌, Bool, true, false,
  not, ◌&&◌, ◌||◌, ◌==◌, List, [], ◌∷◌, if◌then◌else◌, ◌⊎◌, inl, inr, arith, Bool-cases, ==_refl,
  ==_iff,
}
use samehada_db.Hash.Page.{Slot, never, removed, live, slot_occupied, slot_readable}
use samehada_db.Hash.Ring.{position}
use samehada_db.Hash.Walk.{position-lt}
use samehada_db.Hash.Lookup.{path, collect}
use samehada_db.Hash.Insert.{Place, at_step, insert_place}
use samehada_db.Hash.Remove.{reached, is_pair, slot_without, occupied-without}

abbrev pub is_member : ℕ → List ℕ → Bool
is_member v [] = false
is_member v (w ∷ ws) = v == w || is_member v ws

-- one slot of a walk
collect-head :
    (h v : ℕ) (x : Slot) (slots : List Slot)
    → is_member v (collect h (x ∷ slots)) ≡ true
    → (x ≡ live h v) ⊎ (is_member v (collect h slots) ≡ true)
unfolding collect
collect-head h v never slots found = ground arith
collect-head h v removed slots found = inr found
collect-head h v (live k w) slots found = ground (arith, ==_iff k h, ==_iff v w)

collect-live : (h v : ℕ) (slots : List Slot) → is_member v (collect h (live h v ∷ slots)) ≡ true
unfolding collect
collect-live h v slots = ground arith

collect-rest :
    (h v : ℕ) (x : Slot) (slots : List Slot)
    → slot_occupied x ≡ true
    → is_member v (collect h slots) ≡ true
    → is_member v (collect h (x ∷ slots)) ≡ true
unfolding collect slot_occupied
collect-rest h v never slots occ found = ground arith
collect-rest h v removed slots occ found = found
collect-rest h v (live k w) slots occ found = ground arith

place-head :
    (v : ℕ) (x : Slot) (slots : List Slot) (d e : ℕ)
    → insert_place v (x ∷ slots) d ≡ at_step e
    → ((slot_readable x ≡ false) × (d ≡ e))
      ⊎ ((slot_occupied x ≡ true) × (insert_place v slots (suc d) ≡ at_step e))
unfolding insert_place slot_readable slot_occupied
place-head v never slots d e at = inl (refl, cc)
place-head v removed slots d e at = inl (refl, cc)
place-head v (live k w) slots d e at = ground arith

-- The values that a walk collects stand in slots that it sees, and it misses none of those.
pub collect-found :
    (f : ℕ → Slot) (n o k d h v : ℕ)
    → o < n
    → d + k ≤ n
    → is_member v (collect h (path f n o k d)) ≡ true
    → (p : ℕ) × (p < n) × (f p ≡ live h v)
unfolding path collect
collect-found f n o zero d h v ho hd found = ground arith
collect-found f n o (suc k) d h v ho hd found =
    elim (collect-head h v (f (position n o d)) (path f n o k (suc d)) found) [
      | inl e ↦ (position n o d, position-lt n o d ho (omega arith), e)
      | inr later ↦ collect-found f n o k (suc d) h v ho (omega arith) later
    ]

pub collect-all :
    (f : ℕ → Slot) (n o k d h v p : ℕ)
    → reached f n o k d p ≡ true
    → f p ≡ live h v
    → is_member v (collect h (path f n o k d)) ≡ true
unfolding path collect reached slot_occupied
collect-all f n o zero d h v p seen e = ground arith
collect-all f n o (suc k) d h v p seen e = do
  let x = f (position n o d)
  let rest = path f n o k (suc d)
  elim (Bool-cases (position n o d == p)) [
    | inl here ↦ ground (arith, collect-live h v rest, ==_iff (position n o d) p, e)
    | inr away ↦
        collect-rest h v x rest (ground arith) (collect-all f n o k (suc d) h v p (ground arith) e)
  ]

-- more slots taken, more seen
pub reached_mono :
    (f g : ℕ → Slot) (n o k d q : ℕ)
    → o < n
    → d + k ≤ n
    → ((r : ℕ) → r < n → slot_occupied (f r) ≡ true → slot_occupied (g r) ≡ true)
    → reached f n o k d q ≡ true
    → reached g n o k d q ≡ true
unfolding reached
reached_mono f g n o zero d q ho hd more seen = ground arith
reached_mono f g n o (suc k) d q ho hd more seen = ground (
  arith,
  seen,
  more (position n o d) (position-lt n o d ho (omega arith)),
  reached_mono f g n o k (suc d) q ho (omega arith) more,
)

-- A free place holds no pair, and is seen once it is taken.
pub place-reached :
    (f g : ℕ → Slot) (n o k d v e : ℕ)
    → o < n
    → d + k ≤ n
    → insert_place v (path f n o k d) d ≡ at_step e
    → ((r : ℕ) → r < n → slot_occupied (f r) ≡ true → slot_occupied (g r) ≡ true)
    → slot_occupied (g (position n o e)) ≡ true
    → (e < n)
      × (slot_readable (f (position n o e)) ≡ false)
      × (reached g n o k d (position n o e) ≡ true)
unfolding path insert_place reached slot_readable
place-reached f g n o zero d v e ho hd at more taken = ground arith
place-reached f g n o (suc k) d v e ho hd at more taken =
    elim (place-head v (f (position n o d)) (path f n o k (suc d)) d e at) [
      | inl (unread, same) ↦ do
        let taken' = subst (λ i. slot_occupied (g (position n o i)) ≡ true) (sym same) taken
        (
          omega arith,
          subst (λ i. slot_readable (f (position n o i)) ≡ false) same unread,
          ground (arith, taken', ap (position n o) same),
        )
      | inr (occ, later) ↦ do
        let (he, unread, seen) =
            place-reached f g n o k (suc d) v e ho (omega arith) later more taken
        (
          he,
          unread,
          ground (arith, seen, more (position n o d) (position-lt n o d ho (omega arith)) occ),
        )
    ]

-- A ring of `n` slots has a pair, and the search from the origin of its hash sees every pair.
abbrev pub Has : (ℕ → Slot) → ℕ → ℕ → ℕ → Type 0
Has f n h v = (p : ℕ) × (p < n) × (f p ≡ live h v)

abbrev pub Seen : (ℕ → Slot) → ℕ → (ℕ → ℕ) → Type 0
Seen f n origin = (p h v : ℕ) → p < n → f p ≡ live h v → reached f n (origin h) n 0 p ≡ true

pub Seen-agree :
    (f g : ℕ → Slot) (n : ℕ) (origin : ℕ → ℕ)
    → ((h : ℕ) → origin h < n)
    → ((q : ℕ) → q < n → g q ≡ f q)
    → Seen f n origin
    → Seen g n origin
Seen-agree f g n origin ho agree seen p h v hp e =
    reached_mono f g n (origin h) n 0 p (ho h) (omega arith)
      (λ r hr occ. ap slot_occupied (agree r hr) ∙ occ) (seen p h v hp (sym (agree p hp) ∙ e))

pub Has-agree :
    (f g : ℕ → Slot) (n h v : ℕ) → ((q : ℕ) → q < n → g q ≡ f q) → Has g n h v ↔ Has f n h v
Has-agree f g n h v agree =
    (λ (p, hp, e). (p, hp, sym (agree p hp) ∙ e), λ (p, hp, e). (p, hp, agree p hp ∙ e))
