-- ===== src/Opend/PollLoop/Agree.antt =====
-- The array that is polled and the table of clients, through the rounds of ipc2/opend/loop.poll.c.
use apue_learning.Common.{
  ℕ, suc, ◌+◌, ◌<◌, ◌≡◌, refl, ap, ◌∙◌, sym, subst, false, List, [], ◌∷◌, Option, some, length,
  get_elem?, set, arith, ◌==◌, Bool-cases, inl, inr, replicate, length-append,
}
use apue_learning.Opend.{Client, client_add}
use apue_learning.Opend.PollLoop.{
  PollFd, Poll, Event, unused, poll, with_room, grow_pollfd, new_connection, poll_accept, listen,
  scan_all, poll_round, then_rounds, poll_rounds, listening, poll_start,
}
use apue_learning.Opend.PollLoop.Polled.{
  hit, polls, Named, Named-length, Named-get, Named-more, Named-append, polls-append, polls-more,
  length-set, polls-poll, Named-poll, length-poll,
}
use apue_learning.Opend.PollLoop.Table.{AddedTo, added_to, client_add-AddedTo}
use apue_learning.Opend.PollLoop.Scan.{Agrees, Polling, polling, scan-Polling}

-- The array has room for one entry more, and is otherwise the same.
record Roomy (l : Poll) (r : List PollFd × ℕ) : Type 0 where
  named : Named l.numfd r.0
  same : (x : ℕ) → polls x l.numfd r.0 ≡ polls x l.numfd l.pollfd
  number : length r.0 ≡ r.1
  room : l.numfd < length r.0

with_room-Roomy : (l : Poll) → Agrees l → Roomy l (with_room l)
unfolding grow_pollfd
with_room-Roomy l a = elim (Bool-cases (l.numfd == l.maxfd)) [
  | inl e ↦ rw e (record {
    named = Named-append l.numfd l.pollfd (replicate 10 unused) a.named;
    same = λ x. polls-append x l.numfd l.pollfd (replicate 10 unused) a.named;
    number = omega (arith, length-append l.pollfd (replicate 10 unused), a.room);
    room = omega (
      arith,
      length-append l.pollfd (replicate 10 unused),
      Named-length l.numfd l.pollfd a.named,
    );
  })
  | inr e ↦ rw e (record {
    named = a.named;
    same = λ x. refl;
    number = a.room;
    room = ground (arith, e, a.room, Named-length l.numfd l.pollfd a.named);
  })
]

accept-Polling :
    (clifd : ℕ) (l : Poll) (r : Option (ℕ × List Client))
    → Agrees l
    → AddedTo clifd l.client r
    → Polling (new_connection clifd l r)
accept-Polling clifd l _ a (added_to i t h m) =
    let v : PollFd = record { fd = some clifd; pollin = false; pollhup = false } in
    let w = with_room-Roomy l a in
    let one : l.numfd + 1 ≡ suc l.numfd = omega arith in
    polling _ (record {
      named =
          subst (λ n. Named n (set (with_room l).0 l.numfd v)) (sym one)
            (Named-more l.numfd (with_room l).0 v w.named w.room tt);
      same = λ x.
          ap (λ n. polls x n (set (with_room l).0 l.numfd v)) one
          ∙ polls-more x l.numfd (with_room l).0 v w.room
          ∙ ap (λ k. k + hit (some clifd) x) (w.same x ∙ a.same x)
          ∙ sym (h x);
      number = m ∙ ap suc a.number ∙ sym one;
      room = length-set (with_room l).0 l.numfd v ∙ w.number;
      listens = omega arith;
    })

listen-Polling :
    (junk clifd uid : ℕ) (l : Poll) (e : PollFd)
    → Agrees l
    → Polling (listen junk clifd uid l (some e))
unfolding poll_accept
listen-Polling junk clifd uid l e a = elim (Bool-cases e.pollin) [
  | inl q ↦ rw q (
      accept-Polling clifd l (client_add junk clifd uid l.client) a
        (client_add-AddedTo junk clifd uid l.client))
  | inr q ↦ rw q (polling l a)
]

scan_all-Polling : (input : ℕ → Event) (r : Option Poll) → Polling r → Polling (scan_all input r)
scan_all-Polling input _ (polling l a) =
    scan-Polling input (suc l.numfd) 1 l a (omega arith) (omega arith)

polled-Agrees :
    (input : ℕ → Event) (l : Poll)
    → Agrees l
    → Agrees (record l { pollfd = poll input l.numfd l.pollfd; handled = [] })
polled-Agrees input l a = record {
  named = Named-poll input l.numfd l.pollfd a.named;
  same = λ x. polls-poll input x l.numfd l.pollfd ∙ a.same x;
  number = a.number;
  room = length-poll input l.numfd l.pollfd ∙ a.room;
  listens = a.listens;
}

round-Polling :
    (junk clifd uid : ℕ) (input : ℕ → Event) (l : Poll)
    → Agrees l
    → Polling (poll_round junk clifd uid input l)
unfolding poll_round
round-Polling junk clifd uid input l a =
    let polled = record l { pollfd = poll input l.numfd l.pollfd; handled = [] } in
    let a' = polled-Agrees input l a in
    let (e, q, u) = Named-get polled.numfd 0 polled.pollfd a'.named (omega (arith, a.listens)) in
    scan_all-Polling input (listen junk clifd uid polled (get_elem? polled.pollfd 0))
      (rw q (listen-Polling junk clifd uid polled e a'))

then-Polling :
    (r : Option Poll) (k : Poll → Option Poll)
    → Polling r
    → ((l : Poll) → Agrees l → Polling (k l))
    → Polling (then_rounds r k)
then-Polling _ k (polling l a) f = f l a

rounds-Polling :
    (junk : ℕ) (rs : List (ℕ × ℕ × (ℕ → Event))) (l : Poll)
    → Agrees l
    → Polling (poll_rounds junk rs l)
unfolding poll_rounds
rounds-Polling junk [] l a = polling l a
rounds-Polling junk ((clifd, uid, input) ∷ rs) l a =
    then-Polling (poll_round junk clifd uid input l) (λ l'. poll_rounds junk rs l')
      (round-Polling junk clifd uid input l a) (λ l' a'. rounds-Polling junk rs l' a')

start-Polling : (junk listenfd : ℕ) → Polling (poll_start junk listenfd)
unfolding poll_start
start-Polling junk listenfd =
    begins (client_add junk listenfd 0 []) (client_add-AddedTo junk listenfd 0 [])
  where
    begins : (r : Option (ℕ × List Client)) → AddedTo listenfd [] r → Polling (listening listenfd r)
    begins _ (added_to i t h m) = polling _ (record {
      named = (tt, tt);
      same = λ x. omega (arith, h x);
      number = m;
      room = refl;
      listens = omega arith;
    })

-- From its start with the empty table of clients, the server of loop.poll.c goes on through any sequence
-- of rounds, whichever clients connect, send requests, close their connections or hang up: no index
-- is out of the array or the table, `client_del` does not end the process, and the loop over the
-- array, in which an entry that was packed is looked at again, ends. After the rounds the entries
-- that are polled have the descriptors of the clients in the table, each as often as the
-- table, and no other. The system calls are taken to succeed.
pub poll_rounds-Polling :
    (junk listenfd : ℕ) (rs : List (ℕ × ℕ × (ℕ → Event)))
    → Polling (then_rounds (poll_start junk listenfd) (λ l. poll_rounds junk rs l))
poll_rounds-Polling junk listenfd rs =
    then-Polling (poll_start junk listenfd) (λ l. poll_rounds junk rs l)
      (start-Polling junk listenfd) (λ l a. rounds-Polling junk rs l a)
