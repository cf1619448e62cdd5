-- ===== src/Ipc/Channel/Tests.antt =====
-- Channels at concrete inputs.
use shuttlesock.Base.{◌≡◌, inr, refl, Bool, some, [], ◌∷◌, arith}
use shuttlesock.Ipc.Send.{master}
use shuttlesock.Ipc.Channel.{Channel, Held, Answers, shared_create, shared_destroy}
use shuttlesock.Ipc.Channel.Balance.{Creates, buffer_answer, shared_create-Creates}

-- a channel in the memory that calloc gave, and the descriptors 0, 1 and 2
abbrev zeroed : Channel
zeroed = record { buf = 0; fd0 = some 0; fd1 = some 0; socket_fd0 = some 0; socket_fd1 = some 0 }

abbrev standard : Held
standard = record { buffers = []; fds = 0 ∷ 1 ∷ 2 ∷ [] }

abbrev answers : Answers
answers = record { mmap = some 4096; calloc = some 64; eventfd = some 3; socketpair = some (4, 5) }

shared_create-Creates_example :
    (r : Bool × Channel × Held) × (shared_create master zeroed standard answers ≡ some r)
    × Creates standard (buffer_answer master answers) answers.eventfd answers.socketpair r
shared_create-Creates_example =
    shared_create-Creates master zeroed standard answers refl
      (omega arith, omega arith, omega arith) (inr (4096, refl, refl))

-- The destruction of a channel that was never created closes the standard input.
closes_input : (shared_destroy zeroed standard).1.fds ≡ 1 ∷ 2 ∷ []
unfolding shared_destroy
closes_input = refl
