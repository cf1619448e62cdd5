-- ===== src/Ipc/Channel.antt =====
-- src/ipc.c: the memory and the descriptors of a process's channel, as they are created and destroyed, in the
-- build with eventfd. A descriptor is `none` for -1; a buffer is an address, NULL being 0. The system's answers
-- are arguments; a result `none` is a failed assertion or an access to memory that is not there.
pub mod Balance
mod Tests
use shuttlesock.Base.{
  ℕ, ◌+◌, Bool, true, false, Option, none, some, List, [], ◌∷◌, ◌++◌, ◌==◌, if◌then◌else◌,
}
use shuttlesock.Ipc.Send.{Process, is_worker}

-- `shuso_ipc_channel_shared_t`
pub record Channel : Type 0 where
  pub buf : ℕ
  pub fd0 : Option ℕ
  pub fd1 : Option ℕ
  pub socket_fd0 : Option ℕ
  pub socket_fd1 : Option ℕ

-- What the process holds: the buffers that are mapped or allocated, and the descriptors that are open.
pub record Held : Type 0 where
  pub buffers : List ℕ
  pub fds : List ℕ

-- What the system answers: mmap, `none` for MAP_FAILED; calloc, `none` for NULL; eventfd and socketpair,
-- `none` for -1.
pub record Answers : Type 0 where
  pub mmap : Option ℕ
  pub calloc : Option ℕ
  pub eventfd : Option ℕ
  pub socketpair : Option (ℕ × ℕ)

abbrev pub take_fds : Channel → Held → Option (ℕ × ℕ) → Bool × Channel × Held
take_fds c h none = (false, c, h)
take_fds c h (some (a, b)) =
    (true, record c { socket_fd0 = some a; socket_fd1 = some b }, record h { fds = b ∷ a ∷ h.fds })

abbrev pub take_eventfd : Channel → Held → Answers → Option ℕ → Bool × Channel × Held
take_eventfd c h sys none = (false, c, h)
take_eventfd c h sys (some e) =
    take_fds (record c { fd0 = none; fd1 = some e }) (record h { fds = e ∷ h.fds }) sys.socketpair

abbrev pub take_buffer : Channel → Held → Answers → (buf : ℕ) → Bool × Channel × Held
take_buffer c h sys a =
    take_eventfd (record c { buf = a }) (record h { buffers = a ∷ h.buffers }) sys sys.eventfd

-- a buffer by mmap, which is written to although MAP_FAILED is not NULL
abbrev pub take_mapped : Channel → Held → Answers → Option ℕ → Option (Bool × Channel × Held)
take_mapped c h sys none = none
take_mapped c h sys (some a) = some (take_buffer c h sys a)

abbrev pub take_allocated : Channel → Held → Answers → Option ℕ → Option (Bool × Channel × Held)
take_allocated c h sys none = some (false, c, h)
take_allocated c h sys (some a) = some (take_buffer c h sys a)

-- `shuso_ipc_channel_shared_create`
pub shared_create : Process → Channel → Held → Answers → Option (Bool × Channel × Held)
shared_create p c h sys =
    if c.buf == 0
    then if is_worker p then take_allocated c h sys sys.calloc else take_mapped c h sys sys.mmap
    else none

-- one that is released, if it is there
abbrev pub without : ℕ → List ℕ → List ℕ
without a [] = []
without a (x ∷ xs) = let rest = without a xs in if a == x then xs else x ∷ rest

abbrev pub close : Option ℕ → List ℕ → List ℕ
close none fds = fds
close (some a) fds = without a fds

-- `shuso_ipc_channel_shared_destroy`
pub shared_destroy : Channel → Held → Channel × Held
shared_destroy c h = (
  record { buf = 0; fd0 = none; fd1 = none; socket_fd0 = none; socket_fd1 = none },
  record {
    buffers = without c.buf h.buffers;
    fds = close c.socket_fd1 (close c.socket_fd0 (close c.fd1 (close c.fd0 h.fds)));
  },
)
