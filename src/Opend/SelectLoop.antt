-- ===== src/Opend/SelectLoop.antt =====
-- The loop of ipc2/opend/loop.select.c: one round after `select` has returned. What the kernel says in
-- a round is a parameter, and its calls are taken to succeed: whether a client waits to be accepted, and what each descriptor has to read.
pub mod Rounds
pub mod Running
use apue_learning.Common.{
  ℕ, zero, suc, ◌+◌, Bool, true, false, List, [], ◌∷◌, ◌++◌, Option, none, some, ltb, ◌==◌,
  if◌then◌else◌, get_elem?,
}
use apue_learning.Opend.{Client, client_add, client_del}

-- What a read of a descriptor in `rset` gives: the end of the connection, or a request.
-- `quiet` is a descriptor that is not in `rset`.
pub data Input : Type 0 where
  quiet : Input
  closed : Input
  request : List ℕ → Input

-- A call of `handle_request`.
pub record Handled : Type 0 where
  pub buf : List ℕ
  pub clifd : ℕ
  pub uid : ℕ

-- The variables of `loop`, with `visited` for `maxi + 1`, and the calls of `handle_request` in
-- the last round.
pub record Loop : Type 0 where
  pub client : List Client
  pub allset : ℕ → Bool
  pub maxfd : ℕ
  pub visited : ℕ
  pub handled : List Handled

abbrev pub fd_set : ℕ → Bool → (ℕ → Bool) → ℕ → Bool
fd_set fd b set other = if fd == other then b else set other

-- A new connection, accepted as descriptor `clifd` of user `uid`.
abbrev pub added_client : Loop → ℕ → Option (ℕ × List Client) → Option Loop
added_client l clifd none = none
added_client l clifd (some (i, client)) = some (record l {
  client = client;
  allset = fd_set clifd true l.allset;
  maxfd = if ltb l.maxfd clifd then clifd else l.maxfd;
  visited = if ltb l.visited (suc i) then suc i else l.visited;
  handled = [];
})

unfoldable pub accept_client : (junk : ℕ) → ℕ → ℕ → Loop → Option Loop
unfolding client_add
accept_client junk clifd uid l = added_client l clifd (client_add junk clifd uid l.client)

abbrev pub closed_client : Loop → ℕ → Option (List Client) → Option Loop
closed_client l clifd none = none
closed_client l clifd (some client) =
    some (record l { client = client; allset = fd_set clifd false l.allset })

-- One client that has something to read; `none` is the end of the process.
abbrev pub serve : Loop → ℕ → ℕ → Input → Option Loop
serve l clifd uid quiet = some l
serve l clifd uid closed = closed_client l clifd (client_del clifd l.client)
serve l clifd uid (request buf) =
    some (record l { handled = l.handled ++ record { buf = buf; clifd = clifd; uid = uid } ∷ [] })

abbrev pub visit_fd : (ℕ → Input) → Loop → Option ℕ → ℕ → Option Loop
visit_fd input l none uid = some l
visit_fd input l (some clifd) uid = serve l clifd uid (input clifd)

-- An index at which there is no entry cannot be visited.
abbrev pub visit : (ℕ → Input) → Loop → Option Client → Option Loop
visit input l none = none
visit input l (some c) = visit_fd input l c.fd c.uid

abbrev pub and_next : Option Loop → (Loop → Option Loop) → Option Loop
and_next none k = none
and_next (some l) k = k l

-- The loop over `client[]`: `n` more entries, from index `i` on.
unfoldable pub scan_clients : (ℕ → Input) → ℕ → ℕ → Loop → Option Loop
unfolding client_del
scan_clients input zero i l = some l
scan_clients input (suc n) i l =
    and_next (visit input l (get_elem? l.client i)) (λ l'. scan_clients input n (suc i) l')

-- A round: `accepted` is the descriptor and the user of a client that waits, if one does.
unfoldable pub select_round : (junk : ℕ) → Option (ℕ × ℕ) → (ℕ → Input) → Loop → Option Loop
unfolding accept_client scan_clients
select_round junk (some (clifd, uid)) input l = accept_client junk clifd uid l
select_round junk none input l = scan_clients input l.visited 0 (record l { handled = [] })

-- Rounds one after the other; `junk` is what fresh memory holds.
unfoldable pub select_rounds : ℕ → List (Option (ℕ × ℕ) × (ℕ → Input)) → Loop → Option Loop
unfolding select_round
select_rounds junk [] l = some l
select_rounds junk ((accepted, input) ∷ rs) l =
    and_next (select_round junk accepted input l) (λ l'. select_rounds junk rs l')
