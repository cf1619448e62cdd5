-- ===== src/Buffer.antt =====
-- src/buffer.c and src/include/shuttlesock/buffer.h: a buffer as a linked list of links in memory.
-- Addresses are numbers, NULL being 0. A result `none` is `abort()` or a failed assertion.
pub mod Queue
mod Tests
use shuttlesock.Base.{
  ℕ, ◌+◌, ◌*◌, Bool, true, false, Option, none, some, ◌==◌, if◌then◌else◌, not, ◌&&◌, ◌||◌, add64,
}

-- `shuso_buffer_data_type_t`
pub data DataType : Type 0 where
  msghdr : DataType
  iovec : DataType
  charbuf : DataType

-- `shuso_buffer_memory_type_t`
pub data MemoryType : Type 0 where
  default_memory : MemoryType
  heap : MemoryType
  pool : MemoryType
  fixed : MemoryType
  shared : MemoryType
  mmapped : MemoryType
  external : MemoryType

-- `shuso_buffer_link_t`, with `data` and `len` the words of its unions
pub record Link : Type 0 where
  pub data_ptr : ℕ
  pub len : ℕ
  pub data_type : DataType
  pub memory_type : MemoryType
  pub have_cleanup : Bool
  pub next : ℕ

-- `shuso_buffer_t`, and the memory in which the links lie
pub record Buffer : Type 0 where
  pub first : ℕ
  pub last : ℕ
  pub memory_type : MemoryType
  pub allocator_data : ℕ
  pub links : ℕ → Link

-- `shuso_buffer_init`
pub buffer_init : (ℕ → Link) → MemoryType → (allocator_data : ℕ) → Option Buffer
buffer_init links mtype given =
    let buf : Buffer = record {
      first = 0;
      last = 0;
      memory_type = mtype;
      allocator_data = given;
      links = links;
    } in
    elim mtype [
      | heap ↦ if given == 0 then some buf else none
      | pool ↦ if given == 0 then none else some buf
      | fixed ↦ if given == 0 then none else some buf
      | shared ↦ if given == 0 then none else some buf
      | external ↦ some buf
      | _ ↦ none
    ]

-- `shuso_buffer_allocate`, with the answer of the allocator that it calls, 0 for none
pub allocate : Buffer → (answer : ℕ) → Option ℕ
allocate buf answer = elim buf.memory_type [
  | heap ↦ some answer
  | pool ↦ some answer
  | shared ↦ some answer
  | _ ↦ none
]

-- What `shuso_buffer_free` does with a link: whether its cleanup runs, and what gives back its
-- memory
pub data Freed : Type 0 where
  to_heap : (cleanup : Bool) → Freed
  to_slab : (cleanup : Bool) → Freed
  left_alone : (cleanup : Bool) → Freed

abbrev is_default : MemoryType → Bool
is_default default_memory = true
is_default _ = false

free_of : MemoryType → Bool → Option Freed
free_of heap cleanup = some (to_heap cleanup)
free_of pool cleanup = some (left_alone cleanup)
free_of fixed cleanup = some (left_alone cleanup)
free_of shared cleanup = some (to_slab cleanup)
free_of _ cleanup = none

-- `shuso_buffer_free`
pub buffer_free : Buffer → ℕ → Option Freed
unfolding free_of
buffer_free buf link =
    let l = buf.links link in
    if buf.first == link || buf.last == link
    then none
    else free_of (if is_default l.memory_type then buf.memory_type else l.memory_type)
        l.have_cleanup

abbrev pub store_link : (ℕ → Link) → ℕ → Link → ℕ → Link
store_link m a l i = if i == a then l else m i

-- `last->next = link`
abbrev pub set_next : (ℕ → Link) → (last link : ℕ) → ℕ → Link
set_next m last link = store_link m last (record (m last) { next = link })

-- `shuso_buffer_queue`
pub queue : Buffer → ℕ → Buffer
queue buf link = record buf {
  first = if buf.first == 0 then link else buf.first;
  links = if buf.last == 0 then buf.links else set_next buf.links buf.last link;
  last = link;
}

-- `shuso_buffer_dequeue`
pub dequeue : Buffer → ℕ × Buffer
dequeue buf = if buf.first == 0 then (0, buf) else (
  buf.first,
  record buf {
    first = (buf.links buf.first).next;
    last = if buf.last == buf.first then 0 else buf.last;
  },
)

-- `sizeof(shuso_buffer_link_t)`, `sizeof(shuso_buffer_link_with_cleanup_t)` and that of the
-- message block
abbrev pub sizeof_link : ℕ
sizeof_link = 32

abbrev pub sizeof_link_with_cleanup : ℕ
sizeof_link_with_cleanup = 48

abbrev pub sizeof_msgblob : ℕ
sizeof_msgblob = 96

-- a link written at `a` and queued
abbrev pub write_and_queue : Buffer → ℕ → Link → Buffer
write_and_queue buf a l = queue (record buf { links = store_link buf.links a l }) a

-- An `add` of a link `l` whose data the caller is given at `result`
add_link : Buffer → (answer result : ℕ) → Link → Option (ℕ × Buffer)
unfolding queue allocate
add_link buf answer result l = elim (allocate buf answer) [
  | none ↦ none
  | some a ↦ if a == 0 then some (0, buf) else some (result, write_and_queue buf a l)
]

abbrev link_of : (data_ptr len : ℕ) → DataType → MemoryType → Bool → Link
link_of data_ptr len type memory cleanup = record {
  data_ptr = data_ptr;
  len = len;
  data_type = type;
  memory_type = memory;
  have_cleanup = cleanup;
  next = 0;
}

-- `shuso_buffer_add_charbuf`
pub add_charbuf : Buffer → (len answer : ℕ) → Option (ℕ × Buffer)
unfolding add_link
add_charbuf buf len answer =
    let bytes = add64 answer sizeof_link in
    add_link buf answer bytes (link_of bytes len charbuf default_memory false)

-- `shuso_buffer_add_iovec`
pub add_iovec : Buffer → (iovcnt answer : ℕ) → Option (ℕ × Buffer)
unfolding add_link
add_iovec buf iovcnt answer =
    let bytes = add64 answer sizeof_link in
    add_link buf answer bytes (link_of bytes iovcnt iovec default_memory false)

-- `shuso_buffer_add_msg_fd_with_cleanup`, without what it writes to the message block; it says of
-- the link that it holds an `iovec`.
pub add_msg_fd_with_cleanup : Buffer → (cleanup : Bool) → (answer : ℕ) → Option (ℕ × Buffer)
unfolding add_link
add_msg_fd_with_cleanup buf cleanup answer =
    let msg = add64 answer (if cleanup then sizeof_link_with_cleanup else sizeof_link) in
    add_link buf answer (add64 msg sizeof_msgblob) (link_of msg 0 iovec default_memory cleanup)

-- `shuso_buffer_add_msg_fd`
pub add_msg_fd : Buffer → (answer : ℕ) → Option (ℕ × Buffer)
unfolding add_msg_fd_with_cleanup
add_msg_fd buf answer = add_msg_fd_with_cleanup buf false answer

-- `shuso_buffer_link_init_msg`, `_charbuf` (with it `_shuso_str`) and `_iovec`
pub link_init_msg : (msg flags : ℕ) → Link
link_init_msg msg flags = link_of msg flags msghdr external false

pub link_init_charbuf : (buf len : ℕ) → Link
link_init_charbuf buf len = link_of buf len charbuf external false

pub link_init_iovec : (iov iovcnt : ℕ) → Link
link_init_iovec iov iovcnt = link_of iov iovcnt iovec external false

-- `shuso_buffer_last` and `shuso_buffer_next`
pub buffer_last : Buffer → ℕ
buffer_last buf = buf.last

pub buffer_next : Buffer → ℕ
buffer_next buf = buf.first
