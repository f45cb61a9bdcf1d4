-- ===== src/Kernel/Allocator/Frames/Tests.antt =====
-- kernel/src/allocator: two pages on a small memory map, with a page table that is a function.
use yacuri.Base.{
  ℕ, ◌+◌, ◌≤◌, ◌≡◌, ◌≢◌, refl, ap, arith, Option, none, some, List, [], ◌∷◌, get_elem?, ◌==◌,
  if◌then◌else◌, sym, ◌∙◌,
}
use yacuri.Kernel.Allocator.Frames.{
  usable, other, MemoryRegion, frame_size, usable_frames, init, allocate_frame, Mapper, ok,
  map_pages, prepare_pages,
}
use yacuri.Kernel.Allocator.Frames.Ascending.{IsOrdered, Ascends, usable_frames-Ascends}
use yacuri.Kernel.Allocator.Frames.Mapping.{MapperLaws, prepare_pages-maps, prepare_pages-apart}

abbrev Table : Type 0
Table = ℕ → Option ℕ

abbrev store : ℕ → ℕ → Table → Table
store page frame table = λ q. if q == page then some frame else table q

abbrev mapper : Mapper
mapper = record {
  State = Table;
  Error = Unit;
  map_to = λ page frame table allocator. (none, store page frame table, allocator);
}

store-at : (page frame : ℕ) (table : Table) → store page frame table page ≡ some frame
store-at page frame table = ground arith

store-other : (page frame q : ℕ) (table : Table) → q ≢ page → store page frame table q ≡ table q
store-other page frame q table differ = ground (arith, differ)

mapper_laws : MapperLaws mapper
mapper_laws = record {
  maps = λ table page. table page;
  maps_page = λ page frame s s' a a' e. ap (λ (x, t, y). t page) (sym e) ∙ store-at page frame s;
  keeps_pages = λ page frame s s' a a' q e differ.
      ap (λ (x, t, y). t q) (sym e) ∙ store-other page frame q s differ;
  takes_frames = λ page frame s s' a a' e.
      let same : a' ≡ a = ap (λ (x, t, y). y) (sym e) in
      (ap (λ b. b.memory_map) same, omega (arith, ap (λ b. b.next) same));
}

abbrev regions : List MemoryRegion
regions =
    record { start = 0; end = 8192; kind = other }
    ∷ record { start = 8192; end = 20480; kind = usable }
    ∷ []

regions-IsOrdered : IsOrdered 0 regions
regions-IsOrdered =
    (omega arith, omega arith, refl, refl, (omega arith, omega arith, refl, refl, tt))

frames : usable_frames regions ≡ 8192 ∷ 12288 ∷ 16384 ∷ []
unfolding usable_frames
frames = refl

usable_frames-Ascends_example : Ascends 0 (usable_frames regions) 20480
usable_frames-Ascends_example = usable_frames-Ascends 0 regions regions-IsOrdered

abbrev table : Table
table = store 11 12288 (store 10 8192 (λ q. none))

prepared :
    prepare_pages mapper 40960 8192 ((λ q. none), init regions)
    ≡ (ok, table, record { memory_map = regions; next = 2 })
unfolding prepare_pages map_pages allocate_frame usable_frames
prepared = refl

prepare_pages-maps_example :
    (i : ℕ) × (frame : ℕ) × (0 ≤ i)
    × (mapper_laws.maps table 11 ≡ some frame)
    × (get_elem? (usable_frames regions) i ≡ some frame)
prepare_pages-maps_example =
    prepare_pages-maps mapper mapper_laws 40960 8192 (λ q. none) table (init regions)
      (record { memory_map = regions; next = 2 }) 45060 prepared (omega arith) (omega arith)

prepare_pages-apart_example :
    (f : ℕ) × (g : ℕ) × (mapper_laws.maps table 10 ≡ some f)
    × (mapper_laws.maps table 11 ≡ some g)
    × (f + frame_size ≤ g)
prepare_pages-apart_example =
    prepare_pages-apart mapper mapper_laws 40960 8192 (λ q. none) table (init regions)
      (record { memory_map = regions; next = 2 }) 0 10 11 prepared regions-IsOrdered (omega arith)
      (omega arith) (omega arith)
