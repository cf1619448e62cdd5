-- ===== src/Buffer/Tests.antt =====
-- src/buffer.c: the theorems on buffers at concrete buffers.
use shuttlesock.Base.{
  NotIn, head_of, tail_of, ℕ, ◌+◌, ◌≡◌, ◌≢◌, refl, false, some, [], ◌∷◌, ◌++◌, ◌==◌, if◌then◌else◌,
  arith,
}
use shuttlesock.Buffer.{
  Link, Buffer, charbuf, heap, queue, dequeue, add_charbuf, allocate, sizeof_link,
}
use shuttlesock.Buffer.Queue.{IsQueue, queue-IsQueue, dequeue-IsQueue, add_charbuf-IsQueue}

abbrev link_to : ℕ → Link
link_to next = record {
  data_ptr = 0;
  len = 0;
  data_type = charbuf;
  memory_type = heap;
  have_cleanup = false;
  next = next;
}

-- two links, at 64 and 128
abbrev two_links : Buffer
two_links = record {
  first = 64;
  last = 128;
  memory_type = heap;
  allocator_data = 0;
  links = λ a. if a == 64 then link_to 128 else link_to 0;
}

two_links-IsQueue : IsQueue two_links (64 ∷ 128 ∷ [])
two_links-IsQueue = record {
  chain = (refl, (λ e. omega (arith, e)), (refl, (λ e. omega (arith, e)), refl));
  last = refl;
  distinct = (((λ e. omega (arith, e)), tt), (tt, tt));
}

new-NotIn : NotIn 256 (64 ∷ 128 ∷ [])
new-NotIn = ((λ e. omega (arith, e)), ((λ e. omega (arith, e)), tt))

nonzero : (a : ℕ) → (a == 0) ≡ false → a ≢ 0
nonzero a h e = ground (arith, h, e)

queue-IsQueue_example : IsQueue (queue two_links 256) ((64 ∷ 128 ∷ []) ++ 256 ∷ [])
queue-IsQueue_example =
    queue-IsQueue two_links (64 ∷ 128 ∷ []) 256 two_links-IsQueue new-NotIn (nonzero 256 refl) refl

dequeue-IsQueue_example :
    (b : Buffer) × (dequeue two_links ≡ (head_of (64 ∷ 128 ∷ []), b))
    × IsQueue b (tail_of (64 ∷ 128 ∷ []))
dequeue-IsQueue_example = dequeue-IsQueue two_links (64 ∷ 128 ∷ []) two_links-IsQueue

two_links-allocate : allocate two_links 256 ≡ some 256
unfolding allocate
two_links-allocate = refl

buffer_added :
    (b : Buffer) × (add_charbuf two_links 10 256 ≡ some (256 + sizeof_link, b))
    × IsQueue b ((64 ∷ 128 ∷ []) ++ 256 ∷ [])
buffer_added =
    add_charbuf-IsQueue two_links (64 ∷ 128 ∷ []) 10 256 two_links-allocate (nonzero 256 refl)
      (omega arith) two_links-IsQueue new-NotIn
