-- ===== src/Log.antt =====
-- src/log.c: how a line of the log is put together in a buffer of fixed size, and written. A text is its
-- bytes, in ASCII. What a format and its arguments give is an argument.
pub mod Print
pub mod Prefix
pub mod Line
mod Tests
use shuttlesock.Base.{
  ℕ, zero, suc, ◌+◌, ◌-◌, ◌*◌, ◌/◌, ◌%◌, ◌^◌, Bool, Option, none, some, List, [], ◌∷◌, ◌++◌, ltb,
  leb, ◌==◌, if◌then◌else◌, length, get_elem?, take, sub64, bind_crash, ℤ, pos, negsuc, ltz, eqz,
}
use shuttlesock.Procs.Number.{master_num, manager_num, noprocess}

-- `shuso_loglevel_t`
pub data Loglevel : Type 0 where
  fatal : Loglevel
  critical : Loglevel
  error : Loglevel
  warning : Loglevel
  notice : Loglevel
  info : Loglevel
  debug : Loglevel

-- SHUTTLESOCK_MAX_LOG_LINE_SIZE, the size of the buffer
abbrev pub line_size : ℕ
line_size = 4096

-- `last`, counted from the start of the buffer, as `cur` is
abbrev pub last : ℕ
last = line_size - 1

-- the names of the processes: none, master, manager, worker, and ??????
abbrev pub procname : ℤ → List ℕ
procname n =
    if eqz n noprocess
    then 110 ∷ 111 ∷ 110 ∷ 101 ∷ 32 ∷ 32 ∷ 32 ∷ 32 ∷ 32 ∷ []
    else if eqz n master_num
    then 109 ∷ 97 ∷ 115 ∷ 116 ∷ 101 ∷ 114 ∷ 32 ∷ 32 ∷ 32 ∷ []
    else if eqz n manager_num
    then 109 ∷ 97 ∷ 110 ∷ 97 ∷ 103 ∷ 101 ∷ 114 ∷ 32 ∷ 32 ∷ []
    else if ltz manager_num n
    then 119 ∷ 111 ∷ 114 ∷ 107 ∷ 101 ∷ 114 ∷ 32 ∷ []
    else 63 ∷ 63 ∷ 63 ∷ 63 ∷ 63 ∷ 63 ∷ 32 ∷ 32 ∷ 32 ∷ []

-- the names of the levels
abbrev pub lvl : Loglevel → List ℕ
lvl fatal = 32 ∷ 32 ∷ 32 ∷ 70 ∷ 65 ∷ 84 ∷ 65 ∷ 76 ∷ []
lvl critical = 67 ∷ 82 ∷ 73 ∷ 84 ∷ 73 ∷ 67 ∷ 65 ∷ 76 ∷ []
lvl error = 32 ∷ 32 ∷ 32 ∷ 69 ∷ 82 ∷ 82 ∷ 79 ∷ 82 ∷ []
lvl warning = 32 ∷ 87 ∷ 65 ∷ 82 ∷ 78 ∷ 73 ∷ 78 ∷ 71 ∷ []
lvl notice = 32 ∷ 32 ∷ 78 ∷ 79 ∷ 84 ∷ 73 ∷ 67 ∷ 69 ∷ []
lvl info = 32 ∷ 32 ∷ 32 ∷ 32 ∷ 73 ∷ 78 ∷ 70 ∷ 79 ∷ []
lvl debug = 32 ∷ 32 ∷ 32 ∷ 68 ∷ 69 ∷ 66 ∷ 85 ∷ 71 ∷ []

-- the last `digits` digits that a number needs, of which 10 are enough for an int that is not negative
pub decimal : (digits n : ℕ) → List ℕ
decimal zero n = []
decimal (suc d) n =
    let front = decimal d (n / 10) in (if ltb n 10 then [] else front) ++ (48 + n % 10) ∷ []

-- %i of the number of a worker; others are not printed
abbrev pub number_of : ℤ → List ℕ
number_of (pos n) = decimal 10 n
number_of (negsuc n) = []

-- the text in front: [process id, process, number of a worker] level
pub prefix : (pid : ℕ) → ℤ → Loglevel → List ℕ
unfolding decimal
prefix pid procnum level =
    if ltz procnum (pos 0)
    then 91 ∷ decimal 10 pid ++ 32 ∷ procname procnum ++ 93 ∷ 32 ∷ lvl level ++ 58 ∷ 32 ∷ []
    else 91 ∷ decimal 10 pid
      ++ 32 ∷ procname procnum
      ++ 32 ∷ number_of procnum
      ++ 93 ∷ 32 ∷ lvl level
      ++ 58 ∷ 32 ∷ []

-- `S->logbuf` and `cur`
pub record Logbuf : Type 0 where
  pub mem : ℕ → ℕ
  pub cur : ℕ

abbrev pub stored_byte : Option ℕ → ℕ → ℕ
stored_byte none old = old
stored_byte (some b) old = b

-- the memory with `bs` stored from `a` on
abbrev pub store : List ℕ → ℕ → (ℕ → ℕ) → ℕ → ℕ
store bs a m j = if ltb j a then m j else stored_byte (get_elem? bs (j - a)) (m j)

-- what snprintf stores of a text in `size` bytes
abbrev pub printed : (size : ℕ) → List ℕ → List ℕ
printed zero text = []
printed (suc k) text = take k text ++ 0 ∷ []

-- cur += snprintf(cur, last - cur, ...): `none` if bytes behind the buffer are stored, or if the length is
-- no int.
abbrev pub print : List ℕ → Logbuf → Option Logbuf
print text b =
    let bytes = printed (sub64 last b.cur) text in
    if ltb line_size (b.cur + length bytes)
    then none
    else if ltb (length text) (2 ^ 31)
    then some (record { mem = store bytes b.cur b.mem; cur = b.cur + length text })
    else none

-- `...` and the end of the line, or only that
abbrev pub end_line : Logbuf → Option Logbuf
end_line b =
    if leb last b.cur
    then print (46 ∷ 46 ∷ 46 ∷ 10 ∷ []) (record b { cur = last - 5 })
    else print (10 ∷ []) b

-- the `n` bytes from `a` on
abbrev pub read : (ℕ → ℕ) → (a n : ℕ) → List ℕ
read m a zero = []
read m a (suc n) = m a ∷ read m (suc a) n

abbrev pub write : Logbuf → Option (List ℕ × Logbuf)
write b = some (read b.mem 0 b.cur, b)

-- `shuso_log_level_vararg`: the bytes that are written, and the buffer
pub log_level : (pid : ℕ) → ℤ → Loglevel → List ℕ → (ℕ → ℕ) → Option (List ℕ × Logbuf)
unfolding prefix
log_level pid procnum level text m =
    bind_crash (print (prefix pid procnum level) (record { mem = m; cur = 0 }))
      (λ b. bind_crash (print text b) (λ c. bind_crash (end_line c) write))
