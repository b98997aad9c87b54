-- ===== src/Opend/Tests.antt =====
-- The open server's theorems at a concrete table and a concrete request.
use apue_learning.Common.{
  Option, true, false, if◌then◌else◌, ◌==◌, ℕ, ◌≡◌, refl, [], ◌∷◌, List, none, some, arith, length,
  ℤ,
}
use apue_learning.Opend.{Client}
use apue_learning.Opend.Args.{is_white}
use apue_learning.Opend.Request.{
  Opened, opened, empty, handle_request, csopen, descriptor, IsName, handle_request-csopen,
}
use apue_learning.Opend.SelectLoop.{
  Input, request, quiet, closed, Loop, select_round, select_rounds,
}
use apue_learning.Opend.SelectLoop.Running.{Running, select_rounds-Running}
use apue_learning.Opend.SelectLoop.Rounds.{Answered, select_round-Answered}

abbrev table : List Client
table = record { fd = some 4; uid = 100 } ∷ record { fd = none; uid = 7 } ∷ []

abbrev sys_open : List ℕ → ℤ → Opened
sys_open path oflag = opened (length path)

abbrev name : List ℕ
name = b'/' ∷ b'x' ∷ []

name-IsName : IsName name
unfolding is_white
name-IsName = record {
  solid = (refl, (refl, tt));
  clean = (refl, (refl, tt));
  nonempty = omega arith;
}

handle_request-csopen_example :
    handle_request sys_open empty 100 (csopen name 2) ≡ (empty, descriptor 2)
handle_request-csopen_example = handle_request-csopen sys_open empty 100 name 2 name-IsName

abbrev loop : Loop
loop = record { client = table; allset = λ _. true; maxfd = 4; visited = 2; handled = [] }

-- descriptor 4 sends a request of one byte
abbrev input : ℕ → Input
input fd = if fd == 4 then request (0 ∷ []) else quiet

select_round-Answered_example : Answered table (select_round 0 none input loop)
select_round-Answered_example = select_round-Answered 0 input loop (omega arith)

-- a client connects to an empty server, sends a request, and closes
abbrev rounds : List (Option (ℕ × ℕ) × (ℕ → Input))
rounds =
    (some (4, 100), λ _. quiet)
    ∷ (none, input)
    ∷ (none, λ fd. if fd == 4 then closed else quiet)
    ∷ []

select_rounds-Running_example : Running (
    select_rounds 0 rounds
      (record { client = []; allset = λ _. false; maxfd = 3; visited = 0; handled = [] }))
select_rounds-Running_example =
    select_rounds-Running 0 rounds
      (record { client = []; allset = λ _. false; maxfd = 3; visited = 0; handled = [] })
      (omega arith)
