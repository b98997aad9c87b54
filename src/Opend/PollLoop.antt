-- ===== src/Opend/PollLoop.antt =====
-- The loop of ipc2/opend/loop.poll.c. What `poll`, `read` and `serv_accept` give is a parameter, and the
-- calls are taken to succeed; an index out of an array or `log_quit` is the result `none`.
pub mod Polled
pub mod Table
pub mod Scan
pub mod Agree
mod Tests
use apue_learning.Common.{
  ℕ, zero, suc, ◌+◌, ◌-◌, Bool, true, false, List, [], ◌∷◌, ◌++◌, Option, none, some, ltb, ◌==◌,
  if◌then◌else◌, get_elem?, set, replicate,
}
use apue_learning.Opend.{Client, client_add, client_del, nalloc}
use apue_learning.Opend.SelectLoop.{Handled}

-- `struct pollfd` with the two flags of `revents` that are tested; `events` is always POLLIN.
pub record PollFd : Type 0 where
  pub fd : Option ℕ
  pub pollin : Bool
  pub pollhup : Bool

abbrev pub unused : PollFd
unused = record { fd = none; pollin = false; pollhup = false }

unfoldable pub grow_pollfd : List PollFd → ℕ → List PollFd × ℕ
grow_pollfd pfd maxfd = (pfd ++ replicate nalloc unused, maxfd + nalloc)

-- The variables of `loop`, and the calls of `handle_request` in the last round.
pub record Poll : Type 0 where
  pub client : List Client
  pub pollfd : List PollFd
  pub numfd : ℕ
  pub maxfd : ℕ
  pub handled : List Handled

-- What a round finds at a descriptor: the flags, and what a read gives, with no bytes at the end of the
-- connection.
pub record Event : Type 0 where
  pub pollin : Bool
  pub pollhup : Bool
  pub buf : List ℕ

abbrev pub reported : (ℕ → Event) → Option ℕ → PollFd
reported input none = unused
reported input (some fd) = record {
  fd = some fd;
  pollin = (input fd).pollin;
  pollhup = (input fd).pollhup;
}

-- `poll(pollfd, numfd, -1)`.
unfoldable pub poll : (ℕ → Event) → ℕ → List PollFd → List PollFd
poll input zero pfd = pfd
poll input (suc n) [] = []
poll input (suc n) (e ∷ pfd) = reported input e.fd ∷ poll input n pfd

-- Possibly a larger array, in front of a new connection.
abbrev pub with_room : Poll → List PollFd × ℕ
with_room l = if l.numfd == l.maxfd then grow_pollfd l.pollfd l.maxfd else (l.pollfd, l.maxfd)

abbrev pub new_connection : ℕ → Poll → Option (ℕ × List Client) → Option Poll
new_connection clifd l none = none
new_connection clifd l (some (i, client)) = some (record l {
  client = client;
  pollfd =
      set (with_room l).0 l.numfd (record { fd = some clifd; pollin = false; pollhup = false });
  numfd = l.numfd + 1;
  maxfd = (with_room l).1;
})

unfoldable pub poll_accept : (junk clifd uid : ℕ) → Poll → Option Poll
unfolding client_add grow_pollfd
poll_accept junk clifd uid l = new_connection clifd l (client_add junk clifd uid l.client)

-- The next index, and the state behind a connection's end: the last entry takes the place of entry `i`,
-- which is looked at again.
abbrev pub pack : ℕ → List Client → Poll → Option PollFd → Option (ℕ × Poll)
pack i client l none = none
pack i client l (some last) =
    some (i, record l { client = client; pollfd = set l.pollfd i last; numfd = l.numfd - 1 })

abbrev pub hung_up : ℕ → Poll → Option (List Client) → Option (ℕ × Poll)
hung_up i l none = none
hung_up i l (some client) =
    if ltb i (l.numfd - 1)
    then pack i client l (get_elem? l.pollfd (l.numfd - 1))
    else some (suc i, record l { client = client; numfd = l.numfd - 1 })

abbrev pub read_request : ℕ → Poll → ℕ → ℕ → List ℕ → Option (ℕ × Poll)
read_request i l uid fd [] = hung_up i l (client_del fd l.client)
read_request i l uid fd (c ∷ buf) = some (
  suc i,
  record l { handled = l.handled ++ record { buf = c ∷ buf; clifd = fd; uid = uid } ∷ [] },
)

-- The entry `i` of pollfd[] with its descriptor, and the `uid` of the entry `i` of client[].
abbrev pub check_entry : (ℕ → Event) → ℕ → Poll → PollFd → Option ℕ → ℕ → Option (ℕ × Poll)
check_entry input i l e none uid = none
check_entry input i l e (some fd) uid =
    if e.pollhup
    then hung_up i l (client_del fd l.client)
    else if e.pollin
    then read_request i l uid fd (input fd).buf
    else some (suc i, l)

abbrev pub at_index : (ℕ → Event) → ℕ → Poll → Option PollFd → Option Client → Option (ℕ × Poll)
at_index input i l none c = none
at_index input i l (some e) none = none
at_index input i l (some e) (some c) = check_entry input i l e e.fd c.uid

abbrev pub go_on : Option (ℕ × Poll) → (ℕ → Poll → Option Poll) → Option Poll
go_on none k = none
go_on (some (i, l)) k = k i l

-- `for (i = 1; i < numfd; i++)`, from index `i` on; `none` also if the rounds are used up.
unfoldable pub poll_scan : (ℕ → Event) → ℕ → ℕ → Poll → Option Poll
unfolding client_del
poll_scan input zero i l = none
poll_scan input (suc f) i l =
    if ltb i l.numfd
    then go_on (at_index input i l (get_elem? l.pollfd i) (get_elem? l.client i))
        (λ j l'. poll_scan input f j l')
    else some l

abbrev pub listen : (junk clifd uid : ℕ) → Poll → Option PollFd → Option Poll
listen junk clifd uid l none = none
listen junk clifd uid l (some e) = if e.pollin then poll_accept junk clifd uid l else some l

abbrev pub scan_all : (ℕ → Event) → Option Poll → Option Poll
scan_all input none = none
scan_all input (some l) = poll_scan input (suc l.numfd) 1 l

-- A round; `clifd` and `uid` are what `serv_accept` gives if it is called.
unfoldable pub poll_round : (junk clifd uid : ℕ) → (ℕ → Event) → Poll → Option Poll
unfolding poll_accept poll_scan poll
poll_round junk clifd uid input l =
    let polled = record l { pollfd = poll input l.numfd l.pollfd; handled = [] } in
    scan_all input (listen junk clifd uid polled (get_elem? polled.pollfd 0))

abbrev pub then_rounds : Option Poll → (Poll → Option Poll) → Option Poll
then_rounds none k = none
then_rounds (some l) k = k l

unfoldable pub poll_rounds : ℕ → List (ℕ × ℕ × (ℕ → Event)) → Poll → Option Poll
unfolding poll_round
poll_rounds junk [] l = some l
poll_rounds junk ((clifd, uid, input) ∷ rs) l =
    then_rounds (poll_round junk clifd uid input l) (λ l'. poll_rounds junk rs l')

abbrev pub listening : ℕ → Option (ℕ × List Client) → Option Poll
listening listenfd none = none
listening listenfd (some (i, client)) = some (record {
  client = client;
  pollfd =
      set (replicate nalloc unused) 0
        (record { fd = some listenfd; pollin = false; pollhup = false });
  numfd = 1;
  maxfd = nalloc;
  handled = [];
})

-- The start of `loop`, with the empty table of clients.
unfoldable pub poll_start : (junk listenfd : ℕ) → Option Poll
unfolding client_add
poll_start junk listenfd = listening listenfd (client_add junk listenfd 0 [])
