-- ===== src/Pool/Tests.antt =====
-- src/pool.c: the pool's theorems at concrete pools.
use shuttlesock.Base.{
  ℕ, ◌+◌, ◌*◌, ◌%◌, ◌^◌, ◌<◌, ◌≡◌, refl, ◌≢◌, ◌∙◌, ◌⊎◌, inl, inr, Bool, true, false, none, some,
  List, [], ◌∷◌, arith, leb, if◌then◌else◌, Bool-cases, length, All,
}
use shuttlesock.Pool.{Pool, Malloc, sizeof_level, palloc_in_current_page, update_space}
use shuttlesock.Pool.Alloc.{
  last_page, last_allocd, palloc_with_alignment, palloc, mark_level, drain_to_level, empty,
  pool_space, space_used, space_reserved, space_wasted, space_free,
}
use shuttlesock.Pool.Place.{taken}
use shuttlesock.Pool.Outcome.{IsMalloc, fresh_page, Ends, palloc-Ends}
use shuttlesock.Pool.Region.{Sound, palloc-Sound, Lies, palloc-Lies}
use shuttlesock.Pool.Levels.{with_blocks}
use shuttlesock.Pool.Drain.{kept}
use shuttlesock.Pool.Mark.{Request, run, IsGood}
use shuttlesock.Pool.Rollback.{marked, drain-mark}
use shuttlesock.Pool.Empty.{pool_space_total, Emptied, empty-Emptied}

-- a pool of one page of 4096 bytes at 8192
abbrev one_page : Pool
one_page = record {
  space = record { wasted = 0; free = 4056; used = 0; reserved = 40; allocd = 0 };
  page_size = 4096;
  page_count = 1;
  pages = fresh_page 8192 ∷ [];
  page_cur = 8232;
  allocds = [];
  levels = [];
}

one_page-Sound : Sound one_page
one_page-Sound = record {
  books = record {
    small = omega arith;
    balanced = record {
      fits = (
        record {
          aligned = refl;
          header = refl;
          filled = refl;
          inside = omega arith;
          top = omega arith;
        },
        tt,
      );
      used = refl;
      reserved = refl;
      wasted = refl;
      free = refl;
    };
    sized = tt;
    allocd = refl;
    count = refl;
  };
  synced = refl;
  room = omega arith;
}

-- an allocator that has one block, of 65536 bytes at `a`
abbrev block : ℕ → Malloc
block a size = if leb size 65536 then some a else none

block-IsMalloc : (a : ℕ) → a % 8 ≡ 0 → a + 65536 < 2 ^ 64 → IsMalloc (block a)
block-IsMalloc a al top size b e = elim (Bool-cases (leb size 65536)) [
  | inl h ↦
      let same : a ≡ b = ground (arith, h, e) in
      record { aligned = omega (arith, al, same); top = ground (arith, h, top, same) }
  | inr h ↦ absurd (ground (arith, h, e))
]

abbrev page_block : Malloc
page_block = block 131072

abbrev own_mem : Malloc
own_mem = block 262144

page_block-IsMalloc : IsMalloc page_block
page_block-IsMalloc = block-IsMalloc 131072 refl (omega arith)

own_mem-IsMalloc : IsMalloc own_mem
own_mem-IsMalloc = block-IsMalloc 262144 refl (omega arith)

palloc-Ends_example :
    Ends one_page
      (fresh_page 8192)
      []
      5000
      true
      page_block
      own_mem
      (palloc_with_alignment one_page 5000 true page_block own_mem)
palloc-Ends_example =
    palloc-Ends one_page (fresh_page 8192) [] refl one_page-Sound.books refl one_page-Sound.room
      page_block own_mem page_block-IsMalloc own_mem-IsMalloc 5000 true (omega arith)

abbrev one_taken : Pool
one_taken = taken one_page (fresh_page 8192) [] 101 true

one_taken_eq :
    palloc_with_alignment one_page 101 true page_block own_mem ≡ some (some 8232, one_taken)
unfolding palloc_with_alignment palloc_in_current_page update_space
one_taken_eq = refl

palloc-Sound_example : Sound one_taken
palloc-Sound_example =
    palloc-Sound one_page one_page-Sound (fresh_page 8192) [] refl page_block own_mem
      page_block-IsMalloc own_mem-IsMalloc 101 true (omega arith) (some 8232) one_taken one_taken_eq

palloc-Lies_example :
    ((true ≡ false) ⊎ (8232 % 8 ≡ 0))
    × Lies one_page (fresh_page 8192) [] 101 page_block own_mem 8232 one_taken
palloc-Lies_example =
    palloc-Lies one_page one_page-Sound (fresh_page 8192) [] refl page_block own_mem
      page_block-IsMalloc own_mem-IsMalloc 101 true (omega arith) (some 8232) one_taken one_taken_eq
      8232 refl

totals_agree :
    pool_space one_page space_used
      + pool_space one_page space_reserved
      + pool_space one_page space_wasted
      + pool_space one_page space_free
    ≡ one_page.page_size * length one_page.pages
totals_agree = pool_space_total one_page (fresh_page 8192) [] refl one_page-Sound (omega arith)

empty-Emptied_example : (out : Pool) × (empty one_page ≡ some out) × Emptied out
empty-Emptied_example = empty-Emptied one_page one_page-Sound

abbrev one_marked : Pool
one_marked = marked (taken one_page (fresh_page 8192) [] sizeof_level true)

one_marked_eq : mark_level one_page page_block own_mem ≡ some (1, one_marked)
unfolding mark_level palloc palloc_with_alignment palloc_in_current_page update_space
one_marked_eq = refl

block_at : (a size b : ℕ) → block a size ≡ some b → b ≡ a
block_at a size b e = elim (Bool-cases (leb size 65536)) [
  | inl h ↦ ground (arith, h, e)
  | inr h ↦ absurd (ground (arith, h, e))
]

some_eq : (a b : ℕ) → some a ≡ some b → a ≡ b
some_eq a b e = cc

some_ne_none : (a : ℕ) → some a ≢ none
some_ne_none a e = cc

abbrev request : ℕ → Bool → Request
request size align = record { size = size; align = align; page_mem = page_block; own_mem = own_mem }

request-IsGood :
    (q : Pool) (size : ℕ) (align : Bool)
    → size < 2 ^ 62
    → last_page q.pages ≡ some 8192
    → last_allocd q.allocds ≡ none
    → IsGood q (request size align)
request-IsGood q size align small page allocd = record {
  small = small;
  page_block = page_block-IsMalloc;
  own_block = own_mem-IsMalloc;
  page_fresh = λ n a e f.
      let at = block_at 131072 n a e in
      let other = some_eq a 8192 (f ∙ page) in omega (arith, at, other);
  own_fresh = λ n a e f. some_ne_none a (f ∙ allocd);
}

abbrev requests : List Request
requests = request 100 true ∷ request 3 false ∷ request 5000 true ∷ request 4000 true ∷ []

requests-IsGood : All (IsGood one_marked) requests
unfolding update_space
requests-IsGood = (
  request-IsGood one_marked 100 true (omega arith) refl refl,
  (
    request-IsGood one_marked 3 false (omega arith) refl refl,
    (
      request-IsGood one_marked 5000 true (omega arith) refl refl,
      (request-IsGood one_marked 4000 true (omega arith) refl refl, tt),
    ),
  ),
)

drain-mark_example :
    (r : Pool) × (run one_marked requests ≡ some r)
    × (drain_to_level r 1 ≡ some (true, with_blocks one_marked (kept one_marked r)))
drain-mark_example =
    drain-mark one_page one_page-Sound (fresh_page 8192) [] refl page_block own_mem
      (request-IsGood one_page sizeof_level true (omega arith) refl refl) 1 one_marked one_marked_eq
      (omega arith) requests requests-IsGood
