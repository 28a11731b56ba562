-- ===== src/Hash/Content.antt =====
-- The contract of lib/container/hash/linear_probe_hash_table.go: the table holds pairs of a hash and
-- a value, and a search finds exactly the pairs of its hash.
use samehada_db.Prelude.{
  ℕ, ◌<◌, ◌≡◌, ◌≢◌, ◌↔◌, refl, sym, subst, true, Option, none, some, List, ◌⊎◌, arith, done,
}
use mathlib.Core.Logic.Iff
use samehada_db.Hash.Page.{HashTableHeaderPage, Slot, num_blocks}
use samehada_db.Hash.Memory.{Pages}
use samehada_db.Hash.Table.{
  LinearProbeHashTable, InsertError, duplicated_values, capacity, get_value, insert_value,
  remove_value,
}
use samehada_db.Hash.Ring.{ring_slot, position, IsHeader}
use samehada_db.Hash.Walk.{position-lt, IsTable, IsReleased, origin, origin-lt}
use samehada_db.Hash.Lookup.{path, collect}
use samehada_db.Hash.Lookup.Around.{get_value_lem}
use samehada_db.Hash.Insert.{Place, duplicate, full, at_step, error_of, slot_after}
use samehada_db.Hash.Insert.Around.{place_of, insert_value_lem}
use samehada_db.Hash.Remove.Around.{remove_value_lem}
use samehada_db.Hash.Reach.{
  is_member, collect-found, collect-all, place-reached, Has, Seen, Has-agree, Seen-agree,
}
use samehada_db.Hash.Reach.Change.{
  fill, fill-more, fill-occupied, fill-Seen, fill-Has, erase, erase-Seen, erase-Has,
}

-- the header page of a table, and its slots
abbrev pub header_of : LinearProbeHashTable → Pages → HashTableHeaderPage
header_of ht s = s.header_pages ht.header_page_id

abbrev pub slots_of : LinearProbeHashTable → Pages → ℕ → Slot
slots_of ht s = ring_slot (header_of ht s) s

-- A table holds a pair of a hash and a value in one of its slots.
abbrev pub Holds : LinearProbeHashTable → Pages → ℕ → ℕ → Type 0
Holds ht s h v = Has (slots_of ht s) (capacity (header_of ht s)) h v

-- A sound table: a table in which the search for its hash sees every pair.
pub record IsSound (ht : LinearProbeHashTable) (s : Pages) : Type 0 where
  pub table : IsTable ht s
  pub seen : Seen (slots_of ht s) (capacity (header_of ht s)) (origin (header_of ht s))

-- A table after an operation, which leaves the header pages alone.
after :
    (ht : LinearProbeHashTable) (s s' : Pages) (g : ℕ → Slot)
    → IsSound ht s
    → s'.header_pages ≡ s.header_pages
    → ((q : ℕ) → q < capacity (header_of ht s) → ring_slot (header_of ht s) s' q ≡ g q)
    → Seen g (capacity (header_of ht s)) (origin (header_of ht s))
    → IsSound ht s' × ((h v : ℕ) → Holds ht s' h v ↔ Has g (capacity (header_of ht s)) h v)
after ht s s' g sound same slots seen = do
  let hid = ht.header_page_id
  let header = header_of ht s
  let N = capacity header
  (
    record {
      table = record {
        header = subst (λ t. IsHeader (t hid)) (sym same) sound.table.header;
        apart =
            subst (λ t. (i : ℕ) → i < num_blocks (t hid) → (t hid).block_page_ids i ≢ hid)
              (sym same) sound.table.apart;
      };
      seen =
          subst (λ t. Seen (ring_slot (t hid) s') (capacity (t hid)) (origin (t hid))) (sym same)
            (Seen-agree g (ring_slot header s') N (origin header)
              (λ h. origin-lt header h sound.table.header.has_blocks) slots seen);
    },
    λ h v.
        subst (λ t. Has (ring_slot (t hid) s') (capacity (t hid)) h v ↔ Has g N h v) (sym same)
          (Has-agree g (ring_slot header s') N h v slots),
  )

module _ (hash_of : List ℕ → ℕ) where
  -- On a sound table, one in which the search for its hash sees every pair: GetValue returns, the
  -- values it returns are exactly those that the table holds under the key's hash, no slot changes,
  -- and every pin is given back.
  pub get_value_holds :
      (ht : LinearProbeHashTable) (key : List ℕ) (s : Pages)
      → IsSound ht s
      → (vs : List ℕ) × (s' : Pages) × (get_value hash_of ht key s ≡ done (vs, s'))
        × ((v : ℕ) → (is_member v vs ≡ true) ↔ Holds ht s (hash_of key) v)
        × (s'.block_pages ≡ s.block_pages)
        × IsReleased s s'
  get_value_holds ht key s sound = do
    let header = header_of ht s
    let N = capacity header
    let h = hash_of key
    let o = origin header h
    let ho = origin-lt header h sound.table.header.has_blocks
    let (s', ran, blocks, released) = get_value_lem hash_of ht key s sound.table
    (
      collect h (path (slots_of ht s) N o N 0),
      s',
      ran,
      λ v. (
        λ found. collect-found (slots_of ht s) N o N 0 h v ho (omega arith) found,
        λ (p, hp, e). collect-all (slots_of ht s) N o N 0 h v p (sound.seen p h v hp e) e,
      ),
      blocks,
      released,
    )

  -- what an insertion did: nothing at the value or on a full table, else it added the pair
  abbrev pub Inserted :
      LinearProbeHashTable → ℕ → ℕ → Pages → Option InsertError → Pages → Place → Type 0
  Inserted ht h v s err s' duplicate =
      (err ≡ some duplicated_values) × ((k w : ℕ) → Holds ht s' k w ↔ Holds ht s k w)
  Inserted ht h v s err s' full = (err ≡ none) × ((k w : ℕ) → Holds ht s' k w ↔ Holds ht s k w)
  Inserted ht h v s err s' (at_step e) =
      (err ≡ none) × ((k w : ℕ) → Holds ht s' k w ↔ (Holds ht s k w ⊎ ((k ≡ h) × (w ≡ v))))

  Inserted-at :
      (ht : LinearProbeHashTable) (key : List ℕ) (v : ℕ) (s s' : Pages) (place : Place)
      → place_of hash_of ht key v s ≡ place
      → IsSound ht s
      → s'.header_pages ≡ s.header_pages
      → ((q : ℕ)
          → q < capacity (header_of ht s)
          → ring_slot (header_of ht s) s' q
            ≡ slot_after place
                (capacity (header_of ht s))
                (origin (header_of ht s) (hash_of key))
                (hash_of key)
                v
                (slots_of ht s)
                q)
      → Inserted ht (hash_of key) v s (error_of place) s' place × IsSound ht s'
  Inserted-at ht key v s s' duplicate at sound same slots = do
    let (sound', holds) = after ht s s' (slots_of ht s) sound same slots sound.seen
    ((refl, holds), sound')
  Inserted-at ht key v s s' full at sound same slots = do
    let (sound', holds) = after ht s s' (slots_of ht s) sound same slots sound.seen
    ((refl, holds), sound')
  Inserted-at ht key v s s' (at_step e) at sound same slots = do
    let header = header_of ht s
    let N = capacity header
    let h = hash_of key
    let f = slots_of ht s
    let p = position N (origin header h) e
    let ho = λ (k : ℕ). origin-lt header k sound.table.header.has_blocks
    let (sound', holds) =
        after ht s s' (fill f p h v) sound same slots
          (fill-Seen f N (origin header) h v e ho sound.seen at)
    let (he, unread, _) =
        place-reached f (fill f p h v) N (origin header h) N 0 v e (ho h) (omega arith) at
          (λ r hr. fill-more f p h v r) (fill-occupied f p h v)
    (
      (
        refl,
        λ k w. Iff.trans (holds k w) (fill-Has f N p h v k w (position-lt N _ e (ho h) he) unread),
      ),
      sound',
    )

  -- On a sound table Insert returns, the table stays sound, and every pin is given back. Where the
  -- walk from the slot of the hash meets the value, under any key, Insert reports an error and the
  -- table holds what it held; where it meets no free slot all the way around it reports none, and
  -- the table holds what it held; else the table holds the pair of hash and value besides what it
  -- held.
  pub insert_value_adds :
      (ht : LinearProbeHashTable) (key : List ℕ) (v : ℕ) (s : Pages)
      → IsSound ht s
      → (err : Option InsertError) × (s' : Pages) × (insert_value hash_of ht key v s
          ≡ done (err, s'))
        × Inserted ht (hash_of key) v s err s' (place_of hash_of ht key v s)
        × IsSound ht s'
        × IsReleased s s'
  insert_value_adds ht key v s sound = do
    let (s', ran, slots, released) = insert_value_lem hash_of ht key v s sound.table
    let (result, sound') =
        Inserted-at ht key v s s' (place_of hash_of ht key v s) refl sound released.headers slots
    (error_of (place_of hash_of ht key v s), s', ran, result, sound', released)

  -- On a sound table Remove returns, the table holds what it held but the pair of the key's hash
  -- and the value, every slot with it being cleared, the table stays sound, and every pin is given
  -- back.
  pub remove_value_takes :
      (ht : LinearProbeHashTable) (key : List ℕ) (v : ℕ) (s : Pages)
      → IsSound ht s
      → (s' : Pages) × (remove_value hash_of ht key v s ≡ done s')
        × ((k w : ℕ) → Holds ht s' k w ↔ (Holds ht s k w × (((k ≡ hash_of key) × (w ≡ v)) → ⊥)))
        × IsSound ht s'
        × IsReleased s s'
  remove_value_takes ht key v s sound = do
    let header = header_of ht s
    let N = capacity header
    let h = hash_of key
    let f = slots_of ht s
    let ho = λ (k : ℕ). origin-lt header k sound.table.header.has_blocks
    let (s', ran, slots, released) = remove_value_lem hash_of ht key v s sound.table
    let (sound', holds) =
        after ht s s' (erase f N (origin header) h v) sound released.headers slots
          (erase-Seen f N (origin header) h v ho sound.seen)
    (
      s',
      ran,
      λ k w. Iff.trans (holds k w) (erase-Has f N (origin header) h v k w sound.seen),
      sound',
      released,
    )
