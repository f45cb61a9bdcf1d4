-- ===== src/Kernel/Allocator/Frames/Mapping.antt =====
-- kernel/src/allocator/mod.rs: the pages of the heap are mapped to frames of their own.
use yacuri.Base.{
  ℕ, zero, suc, ◌+◌, ◌-◌, ◌/◌, ◌≤◌, ◌<◌, ◌≡◌, ◌≢◌, refl, ap, sym, subst, ◌∙◌, arith, Option, none,
  some, List, get_elem?, Bool-cases, ◌==◌, ==_iff, inl, inr,
}
use yacuri.Kernel.Allocator.Frames.{
  frame_size, usable_frames, BootInfoFrameAllocator, allocate_frame, Mapper, ok, or_fail, and_go,
  map_pages, prepare_pages,
}
use yacuri.Kernel.Allocator.Frames.Ascending.{
  IsOrdered, map_end, usable_frames-Ascends, Ascends-apart,
}

-- What the code relies on of the mapper: a page is mapped as asked, other pages stay, and frames
-- are taken from the allocator in its order.
pub record MapperLaws (mapper : Mapper) : Type 1 where
  pub maps : mapper.State → ℕ → Option ℕ
  pub maps_page :
      (page frame : ℕ) (s s' : mapper.State) (a a' : BootInfoFrameAllocator)
      → mapper.map_to page frame s a ≡ (none, s', a')
      → maps s' page ≡ some frame
  pub keeps_pages :
      (page frame : ℕ) (s s' : mapper.State) (a a' : BootInfoFrameAllocator) (other : ℕ)
      → mapper.map_to page frame s a ≡ (none, s', a')
      → other ≢ page
      → maps s' other ≡ maps s other
  pub takes_frames :
      (page frame : ℕ) (s s' : mapper.State) (a a' : BootInfoFrameAllocator)
      → mapper.map_to page frame s a ≡ (none, s', a')
      → (a'.memory_map ≡ a.memory_map) × (a.next ≤ a'.next)

module _ (mapper : Mapper) (laws : MapperLaws mapper) where
  -- `n` pages are mapped to frames of the memory map, each behind the frame of the page before it.
  abbrev Backed : mapper.State → List ℕ → (n page k : ℕ) → Type 0
  Backed s frames zero page k = Unit
  Backed s frames (suc n) page k =
      (i : ℕ) × (f : ℕ) × (k ≤ i)
      × (laws.maps s page ≡ some f)
      × (get_elem? frames i ≡ some f)
      × Backed s frames n (page + 1) (i + 1)

  Backed-le :
      (s : mapper.State) (frames : List ℕ) (n page k low : ℕ)
      → low ≤ k
      → Backed s frames n page k
      → Backed s frames n page low
  Backed-le s frames zero page k low le backed = tt
  Backed-le s frames (suc n) page k low le (i, f, above, at_page, at_i, backed) =
      (i, f, omega arith, at_page, at_i, backed)

  -- The pages from `page` on are backed, and those before it stay.
  record Loop (n page : ℕ) (s s' : mapper.State) (a : BootInfoFrameAllocator) : Type 0 where
    backed : Backed s' (usable_frames a.memory_map) n page a.next
    kept : (other : ℕ) → other < page → laws.maps s' other ≡ laws.maps s other

  -- One page further.
  Loop-suc :
      (n page frame : ℕ) (s s₁ s' : mapper.State) (a a₁ : BootInfoFrameAllocator)
      → get_elem? (usable_frames a.memory_map) a.next ≡ some frame
      → mapper.map_to page frame s (record a { next = a.next + 1 }) ≡ (none, s₁, a₁)
      → Loop n (page + 1) s₁ s' a₁
      → Loop (suc n) page s s' a
  Loop-suc n page frame s s₁ s' a a₁ taken mapped rest =
      let a₀ : BootInfoFrameAllocator = record a { next = a.next + 1 } in
      let (same_map, later) = laws.takes_frames page frame s s₁ a₀ a₁ mapped in
      record {
        backed = (
          a.next,
          frame,
          omega arith,
          rest.kept page (omega arith) ∙ laws.maps_page page frame s s₁ a₀ a₁ mapped,
          taken,
          Backed-le s' (usable_frames a.memory_map) n (page + 1) a₁.next (a.next + 1) later (
              subst (λ map. Backed s' (usable_frames map) n (page + 1) a₁.next) same_map
                rest.backed),
        );
        kept = λ other before.
            rest.kept other (omega arith)
            ∙ laws.keeps_pages page frame s s₁ a₀ a₁ other mapped (omega arith);
      }

  -- The parts of a result.
  ok-Loop :
      (n page frame : ℕ) (s s' : mapper.State) (a a' : BootInfoFrameAllocator)
      (got : Option mapper.Error × mapper.State × BootInfoFrameAllocator)
      → get_elem? (usable_frames a.memory_map) a.next ≡ some frame
      → mapper.map_to page frame s (record a { next = a.next + 1 }) ≡ got
      → ((s₁ : mapper.State) (a₁ : BootInfoFrameAllocator)
          → map_pages mapper n (page + 1) (s₁, a₁) ≡ (ok, s', a')
          → Loop n (page + 1) s₁ s' a₁)
      → and_go mapper got.0 (map_pages mapper n (page + 1)) (got.1, got.2) ≡ (ok, s', a')
      → Loop (suc n) page s s' a
  ok-Loop n page frame s s' a a' (none, s₁, a₁) taken mapped rest e =
      Loop-suc n page frame s s₁ s' a a₁ taken mapped (rest s₁ a₁ e)
  ok-Loop n page frame s s' a a' (some error, s₁, a₁) taken mapped rest e =
      absurd (ground (arith, ap (λ (r, x, y). r) e))

  taken-Loop :
      (n page : ℕ) (s s' : mapper.State) (a a' : BootInfoFrameAllocator) (got : Option ℕ)
      → get_elem? (usable_frames a.memory_map) a.next ≡ got
      → ((s₁ : mapper.State) (a₁ : BootInfoFrameAllocator)
          → map_pages mapper n (page + 1) (s₁, a₁) ≡ (ok, s', a')
          → Loop n (page + 1) s₁ s' a₁)
      → or_fail mapper got
          (λ frame.
            let mapped = mapper.map_to page frame s (record a { next = a.next + 1 }) in
            and_go mapper mapped.0 (map_pages mapper n (page + 1)) (mapped.1, mapped.2))
          (s, record a { next = a.next + 1 })
        ≡ (ok, s', a')
      → Loop (suc n) page s s' a
  taken-Loop n page s s' a a' none taken rest e = absurd (ground (arith, ap (λ (r, x, y). r) e))
  taken-Loop n page s s' a a' (some frame) taken rest e =
      ok-Loop n page frame s s' a a' (mapper.map_to page frame s (record a { next = a.next + 1 }))
        taken refl rest e

  map_pages-Loop :
      (n page : ℕ) (s s' : mapper.State) (a a' : BootInfoFrameAllocator)
      → map_pages mapper n page (s, a) ≡ (ok, s', a')
      → Loop n page s s' a
  unfolding map_pages allocate_frame
  map_pages-Loop zero page s s' a a' e = record {
    backed = tt;
    kept = λ other before. ap (λ (r, t, x). laws.maps t other) (sym e);
  }
  map_pages-Loop (suc n) page s s' a a' e =
      taken-Loop n page s s' a a' (get_elem? (usable_frames a.memory_map) a.next) refl
        (λ s₁ a₁. map_pages-Loop n (page + 1) s₁ s' a₁ a') e

  -- A page of the loop has a frame, and a later page a later one.
  Backed-at :
      (s : mapper.State) (frames : List ℕ) (n page k q : ℕ)
      → Backed s frames n page k
      → page ≤ q
      → q < page + n
      → (i : ℕ) × (f : ℕ) × (k ≤ i) × (laws.maps s q ≡ some f) × (get_elem? frames i ≡ some f)
  Backed-at s frames zero page k q backed after before = absurd (omega arith)
  Backed-at s frames (suc n) page k q (i, f, above, at_page, at_i, backed) after before =
      elim (Bool-cases (q == page)) [
        | inl here ↦ (i, f, above, ap (laws.maps s) ((==_iff q page).0 here) ∙ at_page, at_i)
        | inr there ↦
            let (j, g, later, at_q, at_j) =
              Backed-at s frames n (page + 1) (i + 1) q backed (ground (arith, there))
                (omega arith) in
            (j, g, omega arith, at_q, at_j)
      ]

  Backed-order :
      (s : mapper.State) (frames : List ℕ) (n page k p q : ℕ)
      → Backed s frames n page k
      → page ≤ p
      → p < q
      → q < page + n
      → (i : ℕ) × (j : ℕ) × (f : ℕ) × (g : ℕ) × (i < j)
        × (laws.maps s p ≡ some f)
        × (laws.maps s q ≡ some g)
        × (get_elem? frames i ≡ some f)
        × (get_elem? frames j ≡ some g)
  Backed-order s frames zero page k p q backed after lt before = absurd (omega arith)
  Backed-order s frames (suc n) page k p q (i, f, above, at_page, at_i, backed) after lt before =
      elim (Bool-cases (p == page)) [
        | inl here ↦
            let (j, g, later, at_q, at_j) =
              Backed-at s frames n (page + 1) (i + 1) q backed (ground (arith, here))
                (omega arith) in
            (
              i,
              j,
              f,
              g,
              omega arith,
              ap (laws.maps s) ((==_iff p page).0 here) ∙ at_page,
              at_q,
              at_i,
              at_j,
            )
        | inr there ↦
            Backed-order s frames n (page + 1) (i + 1) p q backed (ground (arith, there)) lt
              (omega arith)
      ]

  -- Where `prepare_pages` is done, every address of the heap is on a page that is mapped to a frame of
  -- the list of usable frames, from the place in the list on that is the next to be handed out.
  pub prepare_pages-maps :
      (heap_start heap_size : ℕ) (s s' : mapper.State) (a a' : BootInfoFrameAllocator) (address : ℕ)
      → prepare_pages mapper heap_start heap_size (s, a) ≡ (ok, s', a')
      → heap_start ≤ address
      → address < heap_start + heap_size
      → (i : ℕ) × (frame : ℕ) × (a.next ≤ i)
        × (laws.maps s' (address / frame_size) ≡ some frame)
        × (get_elem? (usable_frames a.memory_map) i ≡ some frame)
  unfolding prepare_pages
  prepare_pages-maps heap_start heap_size s s' a a' address e after before =
      let start_page = heap_start / frame_size in
      let pages = (heap_start + heap_size - 1) / frame_size + 1 - start_page in
      Backed-at s' (usable_frames a.memory_map) pages start_page a.next (address / frame_size)
        (map_pages-Loop pages start_page s s' a a' e).backed (omega arith) (omega arith)

  -- Where `prepare_pages` is done on an ordered memory map, two pages of the heap are mapped to
  -- frames that lie apart, in the order of the pages.
  pub prepare_pages-apart :
      (heap_start heap_size : ℕ) (s s' : mapper.State) (a a' : BootInfoFrameAllocator) (low p q : ℕ)
      → prepare_pages mapper heap_start heap_size (s, a) ≡ (ok, s', a')
      → IsOrdered low a.memory_map
      → heap_start / frame_size ≤ p
      → p < q
      → q ≤ (heap_start + heap_size - 1) / frame_size
      → (f : ℕ) × (g : ℕ) × (laws.maps s' p ≡ some f)
        × (laws.maps s' q ≡ some g)
        × (f + frame_size ≤ g)
  unfolding prepare_pages
  prepare_pages-apart heap_start heap_size s s' a a' low p q e ordered after lt before =
      let start_page = heap_start / frame_size in
      let pages = (heap_start + heap_size - 1) / frame_size + 1 - start_page in
      let frames = usable_frames a.memory_map in
      let (i, j, f, g, later, at_p, at_q, at_i, at_j) =
        Backed-order s' frames pages start_page a.next p q
          (map_pages-Loop pages start_page s s' a a' e).backed after lt (omega arith) in
      (
        f,
        g,
        at_p,
        at_q,
        Ascends-apart low (map_end low a.memory_map) frames i j f g
            (usable_frames-Ascends low a.memory_map ordered) later at_i at_j,
      )
