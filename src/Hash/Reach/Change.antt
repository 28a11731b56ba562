-- ===== src/Hash/Reach/Change.antt =====
-- What adding and taking off a pair does to the slots that the walks of
-- lib/container/hash/linear_probe_hash_table.go see.
use samehada_db.Prelude.{
  ℕ, ◌<◌, ◌≡◌, ◌↔◌, sym, ap, subst, ◌∙◌, Bool, true, false, ◌==◌, if◌then◌else◌, ◌⊎◌, inl, inr,
  arith, Bool-cases, ==_refl, ==_iff,
}
use samehada_db.Hash.Page.{Slot, never, removed, live, slot_occupied, slot_readable}
use samehada_db.Hash.Ring.{position}
use samehada_db.Hash.Lookup.{path}
use samehada_db.Hash.Insert.{at_step, insert_place}
use samehada_db.Hash.Remove.{reached, is_pair, slot_without, occupied-without}
use samehada_db.Hash.Reach.{reached_mono, place-reached, Has, Seen}

-- A pair put at a free place of its own walk is seen, and the others still are.
abbrev pub fill : (ℕ → Slot) → ℕ → ℕ → ℕ → ℕ → Slot
fill f p h v q = if p == q then live h v else f q

pub fill-more :
    (f : ℕ → Slot) (p h v r : ℕ)
    → slot_occupied (f r) ≡ true
    → slot_occupied (fill f p h v r) ≡ true
unfolding slot_occupied
fill-more f p h v r occ = ground arith

==→eq : (a b : ℕ) → (a == b) ≡ true → a ≡ b
==→eq a b e = (==_iff a b).0 e

live-key : (h v k w : ℕ) → live h v ≡ live k w → h ≡ k
live-key h v k w e = cc

fill-here : (f : ℕ → Slot) (p h v : ℕ) → fill f p h v p ≡ live h v
fill-here f p h v = ground (arith, ==_refl p)

pub fill-occupied : (f : ℕ → Slot) (p h v : ℕ) → slot_occupied (fill f p h v p) ≡ true
unfolding slot_occupied
fill-occupied f p h v = ap slot_occupied (fill-here f p h v)

pub fill-Seen :
    (f : ℕ → Slot) (n : ℕ) (origin : ℕ → ℕ) (h v e : ℕ)
    → ((k : ℕ) → origin k < n)
    → Seen f n origin
    → insert_place v (path f n (origin h) n 0) 0 ≡ at_step e
    → Seen (fill f (position n (origin h) e) h v) n origin
fill-Seen f n origin h v e ho seen at p k w hp there = do
  let here = position n (origin h) e
  let g = fill f here h v
  let (he, unread, found) =
      place-reached f g n (origin h) n 0 v e (ho h) (omega arith) at
        (λ r hr. fill-more f here h v r) (fill-occupied f here h v)
  elim (Bool-cases (here == p)) [
    | inl same ↦ do
      let pair = (sym (fill-here f here h v) ∙ ap g (==→eq here p same)) ∙ there
      cc (found, ==→eq here p same, live-key h v k w pair)
    | inr away ↦
        reached_mono f g n (origin k) n 0 p (ho k) (omega arith) (λ r hr. fill-more f here h v r)
          (seen p k w hp (ground arith))
  ]

pub fill-Has :
    (f : ℕ → Slot) (n p h v k w : ℕ)
    → p < n
    → slot_readable (f p) ≡ false
    → Has (fill f p h v) n k w ↔ (Has f n k w ⊎ ((k ≡ h) × (w ≡ v)))
unfolding slot_readable
fill-Has f n p h v k w hp unread = (
  λ (q, hq, e). elim (Bool-cases (p == q)) [
    | inl here ↦ inr (ground (arith, e, here))
    | inr away ↦ inl (q, hq, ground (arith, e, away))
  ],
  λ held. elim held [
    | inl (q, hq, e) ↦ (q, hq, ground (arith, e, unread, ap slot_readable e))
    | inr (same_hash, same_value) ↦ (p, hp, ground (arith, same_hash, same_value))
  ],
)

-- A pair taken off every slot that its own walk sees is gone, and the others are still seen.
abbrev pub erase : (ℕ → Slot) → ℕ → (ℕ → ℕ) → ℕ → ℕ → ℕ → Slot
erase f n origin h v q = slot_without (reached f n (origin h) n 0 q) h v (f q)

without-live :
    (seen : Bool) (h v k w : ℕ) (x : Slot)
    → slot_without seen h v x ≡ live k w
    → (x ≡ live k w) × ((seen ≡ true) → (k ≡ h) → (w ≡ v) → ⊥)
unfolding is_pair
without-live seen h v k w never e = ground arith
without-live seen h v k w removed e = ground arith
without-live seen h v k w (live a b) e = ground (arith, e, ==_iff a h, ==_iff b v)

live-without :
    (seen : Bool) (h v k w : ℕ)
    → (((k ≡ h) × (w ≡ v)) → ⊥)
    → slot_without seen h v (live k w) ≡ live k w
unfolding is_pair
live-without seen h v k w other = ground (arith, ==_iff k h, ==_iff w v, other)

pub erase-Seen :
    (f : ℕ → Slot) (n : ℕ) (origin : ℕ → ℕ) (h v : ℕ)
    → ((k : ℕ) → origin k < n)
    → Seen f n origin
    → Seen (erase f n origin h v) n origin
erase-Seen f n origin h v ho seen p k w hp e =
    reached_mono f (erase f n origin h v) n (origin k) n 0 p (ho k) (omega arith)
      (λ r hr occ. occupied-without (reached f n (origin h) n 0 r) h v (f r) ∙ occ)
      (seen p k w hp (without-live (reached f n (origin h) n 0 p) h v k w (f p) e).0)

pub erase-Has :
    (f : ℕ → Slot) (n : ℕ) (origin : ℕ → ℕ) (h v k w : ℕ)
    → Seen f n origin
    → Has (erase f n origin h v) n k w ↔ (Has f n k w × (((k ≡ h) × (w ≡ v)) → ⊥))
erase-Has f n origin h v k w seen = (
  λ (p, hp, e). do
    let (was, other) = without-live (reached f n (origin h) n 0 p) h v k w (f p) e
    (
      (p, hp, was),
      λ (same_hash, same_value).
          other (subst (λ i. reached f n (origin i) n 0 p ≡ true) same_hash (seen p k w hp was))
            same_hash same_value,
    ),
  λ (held, other). (
    held.0,
    held.1,
    ap (slot_without (reached f n (origin h) n 0 held.0) h v) held.2
        ∙ live-without (reached f n (origin h) n 0 held.0) h v k w other,
  ),
)
