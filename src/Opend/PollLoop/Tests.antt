-- ===== src/Opend/PollLoop/Tests.antt =====
-- Runs of the loop of ipc2/opend/loop.poll.c.
use apue_learning.Common.{
  ℕ, ◌≡◌, refl, true, false, List, [], ◌∷◌, Option, none, some, ◌==◌, if◌then◌else◌,
}
use apue_learning.Opend.{client_add, client_del, claim, client_alloc}
use apue_learning.Opend.SelectLoop.{Handled}
use apue_learning.Opend.PollLoop.{
  Poll, Event, poll, poll_accept, grow_pollfd, poll_scan, poll_round, poll_rounds, poll_start,
  then_rounds,
}
use apue_learning.Opend.PollLoop.Scan.{Polling}
use apue_learning.Opend.PollLoop.Agree.{poll_rounds-Polling}

abbrev silent : Event
silent = record { pollin = false; pollhup = false; buf = [] }

abbrev connecting : ℕ → Event
connecting fd = if fd == 3 then record { pollin = true; pollhup = false; buf = [] } else silent

-- Descriptor 5 hangs up, and 6 has a request.
abbrev one_leaves : ℕ → Event
one_leaves fd =
    if fd == 5
    then record { pollin = false; pollhup = true; buf = [] }
    else if fd == 6
    then record { pollin = true; pollhup = false; buf = 7 ∷ [] }
    else silent

abbrev rounds : List (ℕ × ℕ × (ℕ → Event))
rounds = (5, 100, connecting) ∷ (6, 200, connecting) ∷ (0, 0, one_leaves) ∷ []

abbrev requests : Option Poll → Option (ℕ × List Handled)
requests none = none
requests (some l) = some (l.numfd, l.handled)

-- The request of user 200 is handled for user 100: the array was packed, the table was not.
wrong_user :
    requests (then_rounds (poll_start 0 3) (λ l. poll_rounds 0 rounds l))
    ≡ some (2, record { buf = 7 ∷ []; clifd = 6; uid = 100 } ∷ [])
unfolding poll_start poll_rounds poll_round poll_scan poll_accept poll grow_pollfd client_add
    client_del claim client_alloc
wrong_user = refl

poll_rounds-Polling_example : Polling (then_rounds (poll_start 0 3) (λ l. poll_rounds 0 rounds l))
poll_rounds-Polling_example = poll_rounds-Polling 0 3 rounds
