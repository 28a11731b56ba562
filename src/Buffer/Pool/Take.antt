-- ===== src/Buffer/Pool/Take.antt =====
-- `getFrameID` of lib/storage/buffer/buffer_pool_manager.go with the page that it caches out.
use samehada_db.Prelude.{
  ℕ, ◌<◌, ◌≡◌, refl, Bool, true, false, none, some, List, [], ◌∷◌, ◌==◌, arith, if◌then◌else◌,
  Outcome, done, panic, Bool-cases, inl, inr, subst, blocked, done-injective, sym, ◌∙◌,
}
use samehada_db.Prelude.Int.{pos, eqb_ℤ}
use samehada_db.Buffer.Page.{Page, mem_clr}
use samehada_db.Buffer.Outside.{StoreOps, StoreLaws, ReplacerOps, ReplacerLaws}
use samehada_db.Buffer.Pool.{BufferPool, put, delete, get_frame_id, cache_out, take_frame}
use samehada_db.Buffer.Pool.Sound.{is_member, id_of, is_mapped_lem, page_of, view, IsSound}

module _ {R W : Type 0} (rep : ReplacerOps R) (ops : StoreOps W) (IsGood : R → Type 0)
    (rl : ReplacerLaws rep IsGood) (sl : StoreLaws ops) where
  -- `f` is a frame that nothing uses, and all that a client sees is as before.
  pub record IsTaken (b : BufferPool R W) (f : ℕ) (b' : BufferPool R W) : Type 0 where
    pub sound : IsSound rep ops IsGood b'
    pub frame_lt : f < b.pool_size
    pub unmapped : (p : ℕ) → b'.page_table p ≡ some f → ⊥
    pub not_free : is_member f b'.free_list ≡ false
    pub not_contained : rep.is_contain b'.replacer f ≡ false
    pub same_size : b'.pool_size ≡ b.pool_size
    pub same_views : (q : ℕ) → view rep ops IsGood b' q ≡ view rep ops IsGood b q
    pub same_pages : (g : ℕ) → (g == f) ≡ false → b'.pages g ≡ b.pages g
    pub stays_unmapped : (q : ℕ) → b.page_table q ≡ none → b'.page_table q ≡ none
    pub same_reusable : b'.reusable_page_list ≡ b.reusable_page_list
    pub same_next : (ops.allocate_page b'.store).0 ≡ (ops.allocate_page b.store).0
    pub not_pinned :
        (q : ℕ) (pg : Page)
        → b.page_table q ≡ some f
        → b.pages f ≡ some pg
        → eqb_ℤ pg.pin_count (pos 0) ≡ true
    pub stays_mapped :
        (q g : ℕ) → b.page_table q ≡ some g → (g == f) ≡ false → b'.page_table q ≡ some g

  from_free :
      (b : BufferPool R W) (f : ℕ) (rest : List ℕ)
      → IsSound rep ops IsGood b
      → b.free_list ≡ f ∷ rest
      → IsTaken b f (record b { free_list = rest })
  unfolding is_member
  from_free b f rest s e = record {
    sound = record {
      unlocked = s.unlocked;
      small = s.small;
      good = s.good;
      mapped_id = s.mapped_id;
      mapped_lt = s.mapped_lt;
      evictable = s.evictable;
      unpinned = s.unpinned;
      free_lt = λ g h. s.free_lt g (ground arith);
      free_unmapped = λ p g h. s.free_unmapped p g (ground arith);
      free_distinct = (rw e at (s.free_distinct)).1;
      reusable_unmapped = s.reusable_unmapped;
      reusable_distinct = s.reusable_distinct;
      clean = s.clean;
      kept = s.kept;
      pins = s.pins;
    };
    frame_lt = s.free_lt f (ground arith);
    unmapped = λ p. s.free_unmapped p f (ground arith);
    not_free = (rw e at (s.free_distinct)).0;
    not_contained = elim (Bool-cases (rep.is_contain b.replacer f)) [
      | inl h ↦
          absurd
            (s.free_unmapped (id_of b f) f (ground arith) (is_mapped_lem b f (s.evictable f h)))
      | inr h ↦ h
    ];
    same_size = refl;
    same_views = λ q. refl;
    same_pages = λ g h. refl;
    same_next = refl;
    not_pinned = λ q pg h. absurd (s.free_unmapped q f (ground arith) h);
    stays_unmapped = λ q h. h;
    same_reusable = refl;
    stays_mapped = λ q g h k. h;
  }

  -- the pool after the page in the victim's slot went
  abbrev cached : BufferPool R W → ℕ → Page → R → BufferPool R W
  cached b f pg r = record b {
    reusable_page_list = b.reusable_page_list;
    store =
        if pg.is_dirty then ops.write_page pg.id pg.data_bytes (ops.log_flush b.store) else b.store;
    page_table = delete pg.id b.page_table;
    pages = put f (record pg { data_bytes = mem_clr pg.data_bytes }) b.pages;
    replacer = r;
  }

  module _ (b : BufferPool R W) (f : ℕ) (r : R) (pg : Page) (s : IsSound rep ops IsGood b)
      (e : rep.victim b.replacer ≡ done (f, r)) (at : b.pages f ≡ some pg) where
    was_contained : rep.is_contain b.replacer f ≡ true
    was_contained = rl.victim_contained b.replacer f r s.good e

    was_mapped : b.page_table pg.id ≡ some f
    was_mapped = ground (arith, is_mapped_lem b f (s.evictable f was_contained))

    cached-IsSound : IsSound rep ops IsGood (cached b f pg r)
    cached-IsSound = record {
      unlocked = s.unlocked;
      small = s.small;
      good = rl.victim-IsGood b.replacer f r s.good e;
      mapped_id = λ p g h. ground (arith, s.mapped_id p g, s.mapped_id p f);
      mapped_lt = λ p g h. s.mapped_lt p g (ground arith);
      evictable = λ g h. ground (
        arith,
        s.evictable g,
        rl.contain-victim b.replacer f r g s.good e,
        was_mapped,
        at,
        s.mapped_id pg.id g,
        s.mapped_id pg.id f,
      );
      unpinned = λ g pg' h k.
          ground (arith, s.unpinned g pg', rl.contain-victim b.replacer f r g s.good e);
      free_lt = s.free_lt;
      free_unmapped = λ p g h k. s.free_unmapped p g h (ground arith);
      free_distinct = s.free_distinct;
      reusable_unmapped = λ p h. ground (arith, s.reusable_unmapped p h);
      reusable_distinct = s.reusable_distinct;
      clean = λ p g pg' h k pin dirty. ground (
        arith,
        s.clean p g pg',
        sl.read-write pg.id p pg.data_bytes (ops.log_flush b.store),
        sl.read-log_flush p b.store,
        s.mapped_id p g,
        s.mapped_id p f,
        was_mapped,
        at,
      );
      kept = λ g pg' h. ground (arith, s.kept g pg', s.kept f pg);
      pins = λ g pg' h. ground (arith, s.pins g pg', s.pins f pg);
    }

    cached-view : (q : ℕ) → view rep ops IsGood (cached b f pg r) q ≡ view rep ops IsGood b q
    cached-view q = ground (
      arith,
      s.clean pg.id f pg was_mapped at (s.unpinned f pg was_contained at),
      sl.read-write pg.id q pg.data_bytes (ops.log_flush b.store),
      sl.read-log_flush q b.store,
      s.mapped_id q f,
      was_mapped,
      at,
    )

    from_page : IsTaken b f (cached b f pg r)
    unfolding is_member
    from_page = record {
      sound = cached-IsSound;
      frame_lt = s.mapped_lt pg.id f was_mapped;
      unmapped = λ p h. ground (arith, s.mapped_id p f);
      not_free = elim (Bool-cases (is_member f b.free_list)) [
        | inl h ↦ absurd (s.free_unmapped pg.id f h was_mapped)
        | inr h ↦ h
      ];
      not_contained = ground (arith, rl.contain-victim b.replacer f r f s.good e);
      same_size = refl;
      same_views = cached-view;
      same_pages = λ g h. ground arith;
      same_next = ground (
        arith,
        sl.next-write pg.id pg.data_bytes (ops.log_flush b.store),
        sl.next-log_flush b.store,
      );
      not_pinned = λ q pg' h k. ground (arith, s.unpinned f pg' was_contained k);
      stays_unmapped = λ q h. ground arith;
      same_reusable = refl;
      stays_mapped = λ q g h k. ground (arith, s.mapped_id q g h, was_mapped, at);
    }

    take_frame-page : b.free_list ≡ [] → take_frame rep ops b ≡ done (f, cached b f pg r)
    unfolding take_frame get_frame_id cache_out
    take_frame-page empty = ground (
      arith,
      s.kept f pg at,
      s.unpinned f pg was_contained at,
      s.mapped_lt pg.id f was_mapped,
      e,
      at,
      empty,
    )

  take_frame-free :
      (b : BufferPool R W) (f : ℕ) (rest : List ℕ)
      → b.free_list ≡ f ∷ rest
      → take_frame rep ops b ≡ done (f, record b { free_list = rest })
  unfolding take_frame get_frame_id
  take_frame-free b f rest e = rw e

  take_frame_cases :
      (b : BufferPool R W) (f : ℕ) (b' : BufferPool R W) (free : List ℕ) (v : Outcome (ℕ × R))
      → b.free_list ≡ free
      → rep.victim b.replacer ≡ v
      → IsSound rep ops IsGood b
      → take_frame rep ops b ≡ done (f, b')
      → IsTaken b f b'
  unfolding take_frame get_frame_id
  take_frame_cases b f b' (g ∷ rest) v e ev s h =
      subst (λ x. IsTaken b x.0 x.1) (done-injective (sym (take_frame-free b g rest e) ∙ h))
        (from_free b g rest s e)
  take_frame_cases b f b' [] (done (g, r)) e ev s h =
      let (pg, at) = page_of b g (s.evictable g (rl.victim_contained b.replacer g r s.good ev)) in
      subst (λ x. IsTaken b x.0 x.1) (done-injective (sym (take_frame-page b g r pg s ev at e) ∙ h))
        (from_page b g r pg s ev at)
  take_frame_cases b f b' [] panic e ev s h = absurd (ground arith)
  take_frame_cases b f b' [] blocked e ev s h = absurd (ground arith)

  pub take_frame-IsTaken :
      (b : BufferPool R W) (f : ℕ) (b' : BufferPool R W)
      → IsSound rep ops IsGood b
      → take_frame rep ops b ≡ done (f, b')
      → IsTaken b f b'
  take_frame-IsTaken b f b' = take_frame_cases b f b' b.free_list (rep.victim b.replacer) refl refl

  abbrev pub has_frame : BufferPool R W → Bool
  has_frame b = elim b.free_list [
    | g ∷ rest ↦ true
    | [] ↦ elim (rep.victim b.replacer) [ done x ↦ true | panic ↦ false | blocked ↦ false ]
  ]

  take_frame_returns_cases :
      (b : BufferPool R W) (free : List ℕ) (v : Outcome (ℕ × R))
      → b.free_list ≡ free
      → rep.victim b.replacer ≡ v
      → IsSound rep ops IsGood b
      → has_frame b ≡ true
      → (x : ℕ × BufferPool R W) × (take_frame rep ops b ≡ done x)
  take_frame_returns_cases b (g ∷ rest) v e ev s h = (_, take_frame-free b g rest e)
  take_frame_returns_cases b [] (done (g, r)) e ev s h =
      let (pg, at) = page_of b g (s.evictable g (rl.victim_contained b.replacer g r s.good ev)) in
      (_, take_frame-page b g r pg s ev at e)
  take_frame_returns_cases b [] panic e ev s h = absurd (ground arith)
  take_frame_returns_cases b [] blocked e ev s h = absurd (ground arith)

  pub take_frame_returns :
      (b : BufferPool R W)
      → IsSound rep ops IsGood b
      → has_frame b ≡ true
      → (x : ℕ × BufferPool R W) × (take_frame rep ops b ≡ done x)
  take_frame_returns b = take_frame_returns_cases b b.free_list (rep.victim b.replacer) refl refl
