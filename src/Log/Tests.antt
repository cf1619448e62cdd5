-- ===== src/Log/Tests.antt =====
-- The log at concrete texts.
use shuttlesock.Base.{ℕ, ◌≡◌, refl, some, [], ◌∷◌, ◌++◌, arith, pos}
use shuttlesock.Log.{Logbuf, notice, prefix, log_level}
use shuttlesock.Log.Line.{line_of, log_level-Line}

abbrev zeroes : ℕ → ℕ
zeroes j = 0

-- "[71 worker  3]   NOTICE: "
prefix_of_worker :
    prefix 71 (pos 3) notice
    ≡ 91 ∷ 55 ∷ 49 ∷ 32 ∷ 119 ∷ 111 ∷ 114 ∷ 107 ∷ 101 ∷ 114 ∷ 32 ∷ 32 ∷ 51 ∷ 93 ∷ 32 ∷ 32 ∷ 32 ∷ 78
      ∷ 79 ∷ 84 ∷ 73 ∷ 67 ∷ 69 ∷ 58 ∷ 32 ∷ []
unfolding prefix
prefix_of_worker = refl

log_level-Line_example :
    (b : Logbuf) × (log_level 71 (pos 3) notice (104 ∷ 105 ∷ []) zeroes
      ≡ some (line_of (prefix 71 (pos 3) notice ++ 104 ∷ 105 ∷ []), b))
log_level-Line_example = log_level-Line 71 (pos 3) notice (104 ∷ 105 ∷ []) zeroes (omega arith)
