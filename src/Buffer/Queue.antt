-- ===== src/Buffer/Queue.antt =====
-- A buffer whose links are queued and dequeued is a queue of them.
use shuttlesock.Base.{
  ℕ, ◌≡◌, ◌≢◌, refl, sym, ap, subst, ◌∙◌, false, some, List, [], ◌∷◌, ◌++◌, ◌==◌, if◌then◌else◌,
  arith, ◌+◌, ◌^◌, ◌<◌, add64, NotIn, Distinct, last_of, last_of_ne, last_of-append,
  Distinct-append, head_of, tail_of,
}
use shuttlesock.Buffer.{
  Link, Buffer, charbuf, default_memory, store_link, set_next, queue, dequeue, write_and_queue,
  allocate, link_of, sizeof_link, add_charbuf,
}

-- `xs` are the addresses of the links from `a` on, up to one without a next.
abbrev pub Chain : (ℕ → Link) → ℕ → List ℕ → Type 0
Chain m a [] = a ≡ 0
Chain m a (x ∷ xs) = (a ≡ x) × (x ≢ 0) × Chain m (m x).next xs

-- The links of the buffer, first to last
pub record IsQueue (buf : Buffer) (xs : List ℕ) : Type 0 where
  pub chain : Chain buf.links buf.first xs
  pub last : buf.last ≡ last_of xs
  pub distinct : Distinct xs

set_next_self : (m : ℕ → Link) (l a : ℕ) → (set_next m l a l).next ≡ a
set_next_self m l a = ground arith

set_next_ne : (m : ℕ → Link) (l a x : ℕ) → l ≢ x → (set_next m l a x).next ≡ (m x).next
set_next_ne m l a x ne = ground (arith, ne)

extend :
    (m : ℕ → Link) (f a x : ℕ) (xs : List ℕ)
    → Chain m f (x ∷ xs)
    → Distinct (x ∷ xs)
    → NotIn a (x ∷ xs)
    → a ≢ 0
    → (m a).next ≡ 0
    → Chain (set_next m (last_of (x ∷ xs)) a) f (x ∷ xs ++ a ∷ [])
extend m f a x [] (e, nz, c) d (ne, _) anz end =
    (e, nz, (set_next_self m x a, anz, set_next_ne m x a a ne ∙ end))
extend m f a x (y ∷ ys) (e, nz, c) (nin, d) (ne, ns) anz end =
    let keep = set_next_ne m (last_of (y ∷ ys)) a x (last_of_ne x y ys nin) in
    (
      e,
      nz,
      subst (λ b. Chain (set_next m (last_of (y ∷ ys)) a) b (y ∷ ys ++ a ∷ [])) (sym keep)
          (extend m (m x).next a y ys c d ns anz end),
    )

last_of-nonzero : (m : ℕ → Link) (f x : ℕ) (xs : List ℕ) → Chain m f (x ∷ xs) → last_of (x ∷ xs) ≢ 0
last_of-nonzero m f x [] (e, nz, c) = nz
last_of-nonzero m f x (y ∷ ys) (e, nz, c) = last_of-nonzero m (m x).next y ys c

queue_empty :
    (buf : Buffer) (a : ℕ)
    → buf.first ≡ 0
    → buf.last ≡ 0
    → queue buf a ≡ record buf { first = a; last = a }
unfolding queue
queue_empty buf a e f = ground (arith, e, f)

queue_more :
    (buf : Buffer) (a : ℕ)
    → buf.first ≢ 0
    → buf.last ≢ 0
    → queue buf a ≡ record buf { links = set_next buf.links buf.last a; last = a }
unfolding queue
queue_more buf a e f = ground (arith, e, f)

-- Queueing a link that is not in the buffer and has no next puts it behind the others.
pub queue-IsQueue :
    (buf : Buffer) (xs : List ℕ) (a : ℕ)
    → IsQueue buf xs
    → NotIn a xs
    → a ≢ 0
    → (buf.links a).next ≡ 0
    → IsQueue (queue buf a) (xs ++ a ∷ [])
queue-IsQueue buf [] a q n anz end =
    subst (λ (b : Buffer). IsQueue b (a ∷ [])) (sym (queue_empty buf a q.chain q.last))
      (record { chain = (refl, anz, end); last = refl; distinct = (tt, tt) })
queue-IsQueue buf (x ∷ xs) a q n anz end =
    let (e, nz, c) = q.chain in
    let l = q.last in
    let lnz = last_of-nonzero buf.links buf.first x xs q.chain in
    let longer = extend buf.links buf.first a x xs q.chain q.distinct n anz end in
    subst (λ (b : Buffer). IsQueue b (x ∷ xs ++ a ∷ []))
      (sym (queue_more buf a (λ z. nz (sym e ∙ z)) (λ z. lnz (sym l ∙ z))))
      (record {
        chain =
            subst (λ k. Chain (set_next buf.links k a) buf.first (x ∷ xs ++ a ∷ [])) (sym l) longer;
        last = sym (last_of-append (x ∷ xs) a);
        distinct = Distinct-append (x ∷ xs) a q.distinct n;
      })

dequeue_none : (buf : Buffer) → buf.first ≡ 0 → dequeue buf ≡ (0, buf)
unfolding dequeue
dequeue_none buf e = ground (arith, e)

dequeue_one :
    (buf : Buffer)
    → buf.first ≢ 0
    → dequeue buf ≡ (
      buf.first,
      record buf {
        first = (buf.links buf.first).next;
        last = if buf.last == buf.first then 0 else buf.last;
      },
    )
unfolding dequeue
dequeue_one buf e = ground (arith, e)

rest_last :
    (f l x : ℕ) (xs : List ℕ)
    → f ≡ x
    → l ≡ last_of (x ∷ xs)
    → NotIn x xs
    → (if l == f then 0 else l) ≡ last_of xs
rest_last f l x [] e k n = ground (arith, e, k)
rest_last f l x (y ∷ ys) e k n = let ne = last_of_ne x y ys n in ground (arith, e, k, ne)

-- Dequeueing takes the first link, or gives NULL if there is none, and leaves the others.
pub dequeue-IsQueue :
    (buf : Buffer) (xs : List ℕ)
    → IsQueue buf xs
    → (b : Buffer) × (dequeue buf ≡ (head_of xs, b)) × IsQueue b (tail_of xs)
dequeue-IsQueue buf [] q = (buf, dequeue_none buf q.chain, q)
dequeue-IsQueue buf (x ∷ xs) q =
    let (e, nz, c) = q.chain in
    let (n, d) = q.distinct in
    let b : Buffer = record buf {
      first = (buf.links buf.first).next;
      last = if buf.last == buf.first then 0 else buf.last;
    } in
    (
      b,
      dequeue_one buf (λ z. nz (sym e ∙ z)) ∙ ap (λ f. (f, b)) e,
      record {
        chain = subst (λ f. Chain buf.links (buf.links f).next xs) (sym e) c;
        last = rest_last buf.first buf.last x xs e q.last n;
        distinct = d;
      },
    )

store_link-Chain :
    (m : ℕ → Link) (f a : ℕ) (l : Link) (xs : List ℕ)
    → NotIn a xs
    → Chain m f xs
    → Chain (store_link m a l) f xs
store_link-Chain m f a l [] n c = c
store_link-Chain m f a l (x ∷ xs) (ne, ns) (e, nz, c) =
    let same : (store_link m a l x).next ≡ (m x).next = ground (arith, ne) in
    (
      e,
      nz,
      subst (λ b. Chain (store_link m a l) b xs) (sym same)
          (store_link-Chain m (m x).next a l xs ns c),
    )

new_link : ℕ → ℕ → Link
new_link a len = link_of (add64 a sizeof_link) len charbuf default_memory false

add_charbuf_eq :
    (buf : Buffer) (len a : ℕ)
    → allocate buf a ≡ some a
    → a ≢ 0
    → add_charbuf buf len a ≡ some (add64 a sizeof_link, write_and_queue buf a (new_link a len))
unfolding add_charbuf new_link
add_charbuf_eq buf len a h anz = ground (arith, h, anz)

new_link_end : (m : ℕ → Link) (a len : ℕ) → (store_link m a (new_link a len) a).next ≡ 0
unfolding new_link
new_link_end m a len = ground arith

-- Adding a buffer of `len` bytes, with memory for it at `a`, which is not a link of the buffer yet,
-- gives the address of the bytes behind the link, and puts the link behind the others.
pub add_charbuf-IsQueue :
    (buf : Buffer) (xs : List ℕ) (len a : ℕ)
    → allocate buf a ≡ some a
    → a ≢ 0
    → a + sizeof_link + len < 2 ^ 64
    → IsQueue buf xs
    → NotIn a xs
    → (b : Buffer) × (add_charbuf buf len a ≡ some (a + sizeof_link, b)) × IsQueue b (xs ++ a ∷ [])
add_charbuf-IsQueue buf xs len a h anz top q n =
    let m = store_link buf.links a (new_link a len) in
    let place : add64 a sizeof_link ≡ a + sizeof_link = omega (arith, top) in
    let b = write_and_queue buf a (new_link a len) in
    (
      b,
      add_charbuf_eq buf len a h anz ∙ ap (λ p. some (p, b)) place,
      queue-IsQueue (record buf { links = m }) xs a
          (record {
            chain = store_link-Chain buf.links buf.first a (new_link a len) xs n q.chain;
            last = q.last;
            distinct = q.distinct;
          })
          n anz (new_link_end buf.links a len),
    )
