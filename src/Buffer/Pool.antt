-- ===== src/Buffer/Pool.antt =====
-- lib/storage/buffer/buffer_pool_manager.go. A page pointer is the frame in whose slot the page sits.
-- The pool's mutex is a field: an operation that finds it held waits for ever.
pub mod Sound
pub mod Take
pub mod Fetch
pub mod New
pub mod Unpin
pub mod Errors
pub mod Start
mod Tests
use samehada_db.Prelude.{
  ℕ, zero, suc, ◌^◌, ◌-◌, Bool, true, false, not, ◌&&◌, ◌||◌, Option, none, some, List, [], ◌∷◌,
  ◌++◌, ◌==◌, ltb, if◌then◌else◌, Outcome, done, panic, blocked, ◌>>=◌,
}
use samehada_db.Prelude.Int.{ℤ, pos, eqb_ℤ, ltb_ℤ, leb_ℤ}
use samehada_db.Buffer.Page.{
  Page, inc_pin_count, dec_pin_count, set_is_dirty, new_page_object, new_empty, mem_clr,
}
use samehada_db.Buffer.Outside.{
  ReadResult, page_bytes, deallocated_page, read_error, StoreOps, ReplacerOps,
}

pub record BufferPool (R W : Type 0) : Type 0 where
  pub store : W
  pub pages : ℕ → Option Page
  pub pool_size : ℕ
  pub replacer : R
  pub free_list : List ℕ
  pub reusable_page_list : List ℕ
  pub page_table : ℕ → Option ℕ
  pub locked : Bool

-- `math.MaxUint32`
abbrev pub deallocated_frame : ℕ
deallocated_frame = 2 ^ 32 - 1

-- assignment to a key of a Go map or an element of a slice, and `delete`
abbrev pub put : {V : Type 0} → ℕ → V → (ℕ → Option V) → ℕ → Option V
put k v m j = if j == k then some v else m j

abbrev pub delete : {V : Type 0} → ℕ → (ℕ → Option V) → ℕ → Option V
delete k m j = if j == k then none else m j

abbrev pub count_up : ℕ → ℕ → List ℕ
count_up zero i = []
count_up (suc n) i = i ∷ count_up n (suc i)

module _ {R W : Type 0} (rep : ReplacerOps R) (ops : StoreOps W) where
  unfoldable pub new_buffer_pool : ℕ → R → W → BufferPool R W
  new_buffer_pool pool_size replacer store = record {
    store = store;
    pages = λ _. none;
    pool_size = pool_size;
    replacer = replacer;
    free_list = count_up pool_size 0;
    reusable_page_list = [];
    page_table = λ _. none;
    locked = false;
  }

  -- `b.pages[frameID]`, which panics out of range
  abbrev pub slot : BufferPool R W → ℕ → Outcome (Option Page)
  slot b frame_id = if ltb frame_id b.pool_size then done (b.pages frame_id) else panic

  -- and to follow the pointer there
  abbrev pub page_at : BufferPool R W → ℕ → Outcome Page
  page_at b frame_id = do o ← slot b frame_id; elim o [ some pg ↦ done pg | none ↦ panic ]

  unfoldable pub get_frame_id : BufferPool R W → Outcome (ℕ × Bool × BufferPool R W)
  get_frame_id b = elim b.free_list [
    | frame_id ∷ rest ↦ done (frame_id, true, record b { free_list = rest })
    | [] ↦ do
      (frame_id, r) ← rep.victim b.replacer
      done (frame_id, false, record b { replacer = r })
  ]

  -- what `FetchPage` and `NewPage` do with the page that sits in a victim's slot
  unfoldable pub cache_out : BufferPool R W → ℕ → Page → Outcome (BufferPool R W)
  cache_out b frame_id current =
      if not (eqb_ℤ current.pin_count (pos 0))
      then panic
      else done (record b {
        reusable_page_list =
            if current.is_deallocated
            then b.reusable_page_list ++ current.id ∷ []
            else b.reusable_page_list;
        store =
            if not current.is_deallocated && current.is_dirty
            then ops.write_page current.id current.data_bytes (ops.log_flush b.store)
            else b.store;
        page_table = delete current.id b.page_table;
        pages = put frame_id (record current { data_bytes = mem_clr current.data_bytes }) b.pages;
      })

  -- the frame of the page to come, with its slot's page cached out
  unfoldable pub take_frame : BufferPool R W → Outcome (ℕ × BufferPool R W)
  unfolding get_frame_id cache_out
  take_frame b = do
    (frame_id, is_from_free_list, b1) ← get_frame_id b
    if is_from_free_list then done (frame_id, b1) else do
      current ← slot b1 frame_id
      elim current [
        | none ↦ done (frame_id, b1)
        | some pg ↦ do b2 ← cache_out b1 frame_id pg; done (frame_id, b2)
      ]

  -- from `ReadPage` on
  unfoldable pub read_into : ℕ → ℕ × BufferPool R W → Outcome (Option ℕ × BufferPool R W)
  read_into page_id (frame_id, b) = elim (ops.read_page page_id b.store) [
    | deallocated_page ↦ done (none, b)
    | read_error ↦ done (none, record b { locked = true })
    | page_bytes bytes ↦
        if ltb frame_id b.pool_size
        then done (
          some frame_id,
          record b {
            page_table = put page_id frame_id b.page_table;
            pages = put frame_id (new_page_object page_id false bytes) b.pages;
          },
        )
        else panic
  ]

  abbrev pub enter : {A : Type 0} → BufferPool R W → Outcome A → Outcome A
  enter b m = if b.locked then blocked else m

  unfoldable pub fetch_page : BufferPool R W → ℕ → Outcome (Option ℕ × BufferPool R W)
  unfolding take_frame read_into
  fetch_page b page_id = enter b (elim (b.page_table page_id) [
    | some frame_id ↦ if frame_id == deallocated_frame then done (none, b) else do
      pg ← page_at b frame_id
      done (
        some frame_id,
        record b {
          pages = put frame_id (inc_pin_count pg) b.pages;
          replacer = rep.pin frame_id b.replacer;
        },
      )
    | none ↦ do taken ← take_frame b; read_into page_id taken
  ])

  unfoldable pub unpin_page : BufferPool R W → ℕ → Bool → Outcome (BufferPool R W)
  unpin_page b page_id is_dirty = enter b (elim (b.page_table page_id) [
    | some frame_id ↦ if frame_id == deallocated_frame then done b else do
      pg ← page_at b frame_id
      let pg' = dec_pin_count pg
      if ltb_ℤ pg'.pin_count (pos 0) then panic else do
        r ← (if leb_ℤ pg'.pin_count (pos 0) then rep.unpin frame_id b.replacer else done b.replacer)
        done (record b {
          pages = put frame_id (set_is_dirty pg' (pg'.is_dirty || is_dirty)) b.pages;
          replacer = r;
        })
    | none ↦ panic
  ])

  unfoldable pub inc_pin_of_page : BufferPool R W → ℕ → Outcome (BufferPool R W)
  inc_pin_of_page b frame_id = enter b (do
    pg ← page_at b frame_id
    done (record b { pages = put frame_id (inc_pin_count pg) b.pages }))

  unfoldable pub dec_pin_of_page : BufferPool R W → ℕ → Outcome (BufferPool R W)
  dec_pin_of_page b frame_id = enter b (do
    pg ← page_at b frame_id
    done (record b { pages = put frame_id (dec_pin_count pg) b.pages }))

  unfoldable pub flush_page : BufferPool R W → ℕ → Outcome (Bool × BufferPool R W)
  flush_page b page_id = enter b (elim (b.page_table page_id) [
    | some frame_id ↦ do
      pg ← page_at b frame_id
      done (
        not (ops.write_fails page_id b.store),
        record b {
          pages = put frame_id (set_is_dirty pg false) b.pages;
          store = ops.write_page page_id pg.data_bytes b.store;
        },
      )
    | none ↦ done (false, b)
  ])

  -- the page id of `NewPage`: the first reusable one, or one from the disk manager
  unfoldable pub choose_page_id : BufferPool R W → ℕ × BufferPool R W
  choose_page_id b = elim b.reusable_page_list [
    | page_id ∷ rest ↦ (
      page_id,
      record b {
        reusable_page_list = rest;
        store = ops.log_flush (ops.log_reuse_page page_id b.store);
      },
    )
    | [] ↦ ((ops.allocate_page b.store).0, record b { store = (ops.allocate_page b.store).1 })
  ]

  unfoldable pub new_page : BufferPool R W → List ℕ → Outcome (ℕ × ℕ × BufferPool R W)
  unfolding take_frame choose_page_id
  new_page b buffer = enter b (do
    (frame_id, b1) ← take_frame b
    let chosen = choose_page_id b1
    if ltb frame_id b.pool_size
        then done (
          chosen.0,
          frame_id,
          record (chosen.1) {
            page_table = put chosen.0 frame_id (chosen.1).page_table;
            pages = put frame_id (new_empty chosen.0 buffer) (chosen.1).pages;
          },
        )
        else panic)

  unfoldable pub deallocate_page : BufferPool R W → ℕ → Bool → Outcome (BufferPool R W)
  deallocate_page b page_id is_no_wait = do
    b1 ←
        (if is_no_wait
          then enter b (
              done (elim (b.page_table page_id) [
                | some frame_id ↦ record b {
                  page_table = delete page_id b.page_table;
                  reusable_page_list = b.reusable_page_list ++ page_id ∷ [];
                }
                | none ↦ b
              ]))
          else done b)
    done (record b1 { store = ops.log_flush (ops.log_deallocate_page page_id b1.store) })
