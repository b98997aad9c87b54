-- ===== src/FullIo/Tests.antt =====
-- Transfers in pieces.
use apue_learning.Common.{◌≡◌, refl, [], ◌∷◌, some, none, arith}
use apue_learning.FullIo.{readn, writen}
use apue_learning.FullIo.Complete.{readn_complete, writen_complete}

-- five bytes are asked for, and the stream ends behind three
readn_complete_example :
    readn (some 2 ∷ some 9 ∷ some 1 ∷ some 1 ∷ some 1 ∷ some 1 ∷ []) 5 (1 ∷ 2 ∷ 3 ∷ [])
    ≡ some (record { result = some 3; bytes = 1 ∷ 2 ∷ 3 ∷ []; rest = [] })
readn_complete_example =
    readn_complete (some 2 ∷ some 9 ∷ some 1 ∷ some 1 ∷ some 1 ∷ some 1 ∷ []) 5 (1 ∷ 2 ∷ 3 ∷ [])
      (omega arith, (omega arith, (omega arith, (omega arith, (omega arith, (omega arith, tt))))))
      (omega arith)

writen_complete_example :
    writen (some 2 ∷ some 2 ∷ some 2 ∷ some 2 ∷ []) (1 ∷ 2 ∷ 3 ∷ [])
    ≡ some (record { result = some 3; bytes = 1 ∷ 2 ∷ 3 ∷ []; rest = [] })
writen_complete_example =
    writen_complete (some 2 ∷ some 2 ∷ some 2 ∷ some 2 ∷ []) (1 ∷ 2 ∷ 3 ∷ [])
      (omega arith, (omega arith, (omega arith, (omega arith, tt)))) (omega arith)

-- the second call fails: what the first has read is returned
later_failure :
    readn (some 2 ∷ none ∷ []) 5 (1 ∷ 2 ∷ 3 ∷ [])
    ≡ some (record { result = some 2; bytes = 1 ∷ 2 ∷ []; rest = 3 ∷ [] })
unfolding readn
later_failure = refl
