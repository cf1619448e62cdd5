-- ===== src/Pool/Outcome.antt =====
-- src/pool.c: what `palloc_with_alignment` does, on each of its paths.
use shuttlesock.Base.{
  ℕ, ◌+◌, ◌%◌, ◌^◌, ◌≤◌, ◌<◌, ◌≡◌, refl, ◌⊎◌, inl, inr, Bool, true, false, Option, none, some, List,
  ◌∷◌, arith, leb, Bool-cases, Option-cases, add64,
}
use shuttlesock.Pool.{
  Page, Pool, Malloc, sizeof_page, sizeof_allocd, link_page, plain_old_malloc,
  palloc_in_current_page, palloc_in_new_page,
}
use shuttlesock.Pool.Alloc.{palloc_with_alignment}
use shuttlesock.Pool.Books.{Books, Synced, IsBlock, link_page-Books}
use shuttlesock.Pool.Place.{placed, taken, current-full, current-fits}

-- What `malloc` promises: each answer to a request is a block of that size.
abbrev pub IsMalloc : Malloc → Type 0
IsMalloc malloc = (size a : ℕ) → malloc size ≡ some a → IsBlock size a

-- A page just linked in at `a`.
abbrev pub fresh_page : ℕ → Page
fresh_page a = record {
  base = a;
  space = record { used = 0; wasted = 0; reserved = sizeof_page; cur = a + sizeof_page };
}

-- The pool with a block of its own at `a`.
abbrev pub own_block : Pool → (sz a : ℕ) → Pool
own_block pool sz a = record pool {
  allocds = record { addr = a; size = sz } ∷ pool.allocds;
  space = record (pool.space) { allocd = add64 pool.space.allocd sz };
}

pub pages-link_page :
    (pool : Pool) (a : ℕ)
    → sizeof_page ≤ pool.page_size
    → IsBlock pool.page_size a
    → (link_page pool a).pages ≡ fresh_page a ∷ pool.pages
unfolding link_page
pages-link_page pool a room block = ground arith

pub Synced-link_page : (pool : Pool) (a : ℕ) → Synced (link_page pool a)
unfolding link_page
Synced-link_page pool a = refl

page_size-link_page : (pool : Pool) (a : ℕ) → (link_page pool a).page_size ≡ pool.page_size
unfolding link_page
page_size-link_page pool a = refl

-- The four ways in which an allocation in a pool with last page `p` ends.
pub data Ends (pool : Pool) (p : Page) (ps : List Page) (sz : ℕ) (align : Bool)
    (page_mem own_mem : Malloc) (res : Option (Option ℕ × Pool)) : Type 0 where
  in_last :
      placed align p.space.cur + sz ≤ p.base + pool.page_size
      → res ≡ some (some (placed align p.space.cur), taken pool p ps sz align)
      → Ends pool p ps sz align page_mem own_mem res
  in_fresh :
      (a : ℕ)
      → p.base + pool.page_size < placed align p.space.cur + sz
      → sizeof_page + sz ≤ pool.page_size
      → page_mem pool.page_size ≡ some a
      → res
        ≡ some (some (a + sizeof_page), taken (link_page pool a) (fresh_page a) pool.pages sz align)
      → Ends pool p ps sz align page_mem own_mem res
  in_own :
      (a : ℕ)
      → p.base + pool.page_size < placed align p.space.cur + sz
      → (pool.page_size < sizeof_page + sz) ⊎ (page_mem pool.page_size ≡ none)
      → own_mem (sizeof_allocd + sz) ≡ some a
      → res ≡ some (some (a + sizeof_allocd), own_block pool sz a)
      → Ends pool p ps sz align page_mem own_mem res
  refused :
      p.base + pool.page_size < placed align p.space.cur + sz
      → (pool.page_size < sizeof_page + sz) ⊎ (page_mem pool.page_size ≡ none)
      → own_mem (sizeof_allocd + sz) ≡ none
      → res ≡ some (none, pool)
      → Ends pool p ps sz align page_mem own_mem res

pub placed_fresh :
    (align : Bool) (a : ℕ) → a % 8 ≡ 0 → placed align (a + sizeof_page) ≡ a + sizeof_page
placed_fresh true a h = omega arith
placed_fresh false a h = refl

module _ (pool : Pool) (b : Books pool) (at : Synced pool) (room : sizeof_page ≤ pool.page_size)
    (sz : ℕ) (align : Bool) (h : sz < 2 ^ 62) (malloc : Malloc) where
  new-too_big :
      pool.page_size < sizeof_page + sz
      → palloc_in_new_page pool sz align malloc ≡ some (none, pool)
  unfolding palloc_in_new_page
  new-too_big big = ground (arith, b.small)

  new-no_memory :
      malloc pool.page_size ≡ none → palloc_in_new_page pool sz align malloc ≡ some (none, pool)
  unfolding palloc_in_new_page
  new-no_memory e = ground arith

  new-fresh :
      (a : ℕ)
      → IsBlock pool.page_size a
      → sizeof_page + sz ≤ pool.page_size
      → malloc pool.page_size ≡ some a
      → palloc_in_new_page pool sz align malloc
        ≡ some (some (a + sizeof_page), taken (link_page pool a) (fresh_page a) pool.pages sz align)
  unfolding palloc_in_new_page
  new-fresh a block fits e = ground (arith, b.small, landed, placed_fresh align a block.aligned)
    where
      landed :
          palloc_in_current_page (link_page pool a) sz align
          ≡ some (
            some (placed align (a + sizeof_page)),
            taken (link_page pool a) (fresh_page a) pool.pages sz align,
          )
      landed =
          current-fits (link_page pool a) (fresh_page a) pool.pages
            (pages-link_page pool a room block) (link_page-Books pool b a at room block)
            (Synced-link_page pool a) sz align h
            (rw (page_size-link_page pool a, placed_fresh align a block.aligned) (omega arith))

  own-some :
      (a : ℕ)
      → IsBlock (sizeof_allocd + sz) a
      → malloc (sizeof_allocd + sz) ≡ some a
      → plain_old_malloc pool sz malloc ≡ (some (a + sizeof_allocd), own_block pool sz a)
  unfolding plain_old_malloc
  own-some a block e = ground arith

  own-none : malloc (sizeof_allocd + sz) ≡ none → plain_old_malloc pool sz malloc ≡ (none, pool)
  unfolding plain_old_malloc
  own-none e = ground arith

-- An answer of the allocator, or none.
le_or_lt : (m n : ℕ) → (m ≤ n) ⊎ (n < m)
le_or_lt m n = elim (Bool-cases (leb m n)) [
  | inl e ↦ inl (ground arith)
  | inr e ↦ inr (ground arith)
]

module _ (pool : Pool) (p : Page) (ps : List Page) (e : pool.pages ≡ p ∷ ps) (b : Books pool)
    (at : Synced pool) (room : sizeof_page ≤ pool.page_size) (page_mem own_mem : Malloc)
    (pm : IsMalloc page_mem) (om : IsMalloc own_mem) (sz : ℕ) (align : Bool) (h : sz < 2 ^ 62) where
  own_Ends :
      p.base + pool.page_size < placed align p.space.cur + sz
      → (pool.page_size < sizeof_page + sz) ⊎ (page_mem pool.page_size ≡ none)
      → palloc_in_new_page pool sz align page_mem ≡ some (none, pool)
      → Ends pool p ps sz align page_mem own_mem
          (palloc_with_alignment pool sz align page_mem own_mem)
  unfolding palloc_with_alignment
  own_Ends over why none_new = elim (Option-cases (own_mem (sizeof_allocd + sz))) [
    | inl no_mem ↦ refused over why no_mem (
        ground (
          arith,
          current-full pool p ps e b at sz align h over,
          own-none pool b at room sz align h own_mem no_mem,
        ))
    | inr (a, mem) ↦ in_own a over why mem (
        ground (
          arith,
          current-full pool p ps e b at sz align h over,
          own-some pool b at room sz align h own_mem a (om _ a mem) mem,
        ))
  ]

  new_Ends :
      p.base + pool.page_size < placed align p.space.cur + sz
      → sizeof_page + sz ≤ pool.page_size
      → Ends pool p ps sz align page_mem own_mem
          (palloc_with_alignment pool sz align page_mem own_mem)
  unfolding palloc_with_alignment
  new_Ends over fits = elim (Option-cases (page_mem pool.page_size)) [
    | inl no_mem ↦
        own_Ends over (inr no_mem) (new-no_memory pool b at room sz align h page_mem no_mem)
    | inr (a, mem) ↦ in_fresh a over fits mem (
        ground (
          arith,
          current-full pool p ps e b at sz align h over,
          new-fresh pool b at room sz align h page_mem a (pm _ a mem) fits mem,
        ))
  ]

  -- An allocation in a pool that has a page never crashes. It goes behind what the last page holds
  -- if it fits there, else to a fresh page if it fits in one and there is memory for it, else to a
  -- block of its own, and it fails, the pool unchanged, only if there is no memory for that either.
  pub palloc-Ends :
      Ends pool p ps sz align page_mem own_mem
        (palloc_with_alignment pool sz align page_mem own_mem)
  unfolding palloc_with_alignment
  palloc-Ends = elim (le_or_lt (placed align p.space.cur + sz) (p.base + pool.page_size)) [
    | inl fits ↦ in_last fits (ground (arith, current-fits pool p ps e b at sz align h fits))
    | inr over ↦ elim (le_or_lt (sizeof_page + sz) pool.page_size) [
      | inl fits ↦ new_Ends over fits
      | inr big ↦ own_Ends over (inl big) (new-too_big pool b at room sz align h page_mem big)
    ]
  ]
