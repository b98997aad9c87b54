-- ===== src/Opend/SelectLoop/Running.antt =====
-- The server of ipc2/opend/loop.select.c over many rounds.
use apue_learning.Common.{
  ℕ, suc, ◌+◌, ◌≤◌, ◌<◌, ◌≡◌, ap, List, [], ◌∷◌, ◌++◌, Option, none, some, length, arith,
  length-append, ltb, if◌then◌else◌,
}
use apue_learning.Opend.{Client, client_add}
use apue_learning.Opend.Clients.{Added, grown, reused, fresh, entry, client_add-Added}
use apue_learning.Opend.SelectLoop.{
  Input, Loop, and_next, select_round, select_rounds, added_client, accept_client,
}
use apue_learning.Opend.SelectLoop.Rounds.{Served, served, scan_clients-Served}

-- A loop that goes on, with the indexes that it will visit in the table.
pub data Running : Option Loop → Type 0 where
  running : (l : Loop) → l.visited ≤ length l.client → Running (some l)

grown_length :
    (t : List Client) (junk fd uid : ℕ) → length (t ++ entry fd uid ∷ fresh junk) ≡ length t + 10
grown_length t junk fd uid = omega (arith, length-append t (entry fd uid ∷ fresh junk))

middle_length :
    (before after : List Client) (c : Client) → length before < length (before ++ c ∷ after)
middle_length before after c = omega (arith, length-append before (c ∷ after))

same_length :
    (before after : List Client) (c d : Client)
    → length (before ++ c ∷ after) ≡ length (before ++ d ∷ after)
same_length before after c d =
    omega (arith, length-append before (c ∷ after), length-append before (d ∷ after))

raised :
    (visited i n m : ℕ)
    → visited ≤ n
    → n ≤ m
    → i < m
    → (if ltb visited (suc i) then suc i else visited) ≤ m
raised visited i n m h k j = ground arith

Added-Running :
    (junk fd uid : ℕ) (l : Loop) (r : Option (ℕ × List Client))
    → l.visited ≤ length l.client
    → Added junk fd uid l.client r
    → Running (added_client l fd r)
Added-Running junk fd uid l _ h (grown _) = running _ (
    raised l.visited (length l.client) (length l.client)
      (length (l.client ++ entry fd uid ∷ fresh junk)) h
      (omega (arith, grown_length l.client junk fd uid))
      (omega (arith, grown_length l.client junk fd uid)))
Added-Running junk fd uid l _ h (reused before old after _ _ q) = running _ (
    raised l.visited (length before) (length l.client) (length (before ++ entry fd uid ∷ after)) h
      (omega (arith, ap length q, same_length before after old (entry fd uid)))
      (middle_length before after (entry fd uid)))

select_round-Running :
    (junk : ℕ) (accepted : Option (ℕ × ℕ)) (input : ℕ → Input) (l : Loop)
    → l.visited ≤ length l.client
    → Running (select_round junk accepted input l)
unfolding select_round accept_client
select_round-Running junk (some (fd, uid)) input l h =
    Added-Running junk fd uid l (client_add junk fd uid l.client) h
      (client_add-Added junk fd uid l.client)
select_round-Running junk none input l h = scanned (
    scan_clients-Served input l.client l.visited 0 (record l { handled = [] })
      (record { kept = λ i fd uid q. q; registered = tt }) (omega (arith, h)))
  where
    scanned : {o : Option Loop} → Served l.client (record l { handled = [] }) o → Running o
    scanned (served l' s q v) = running l' (omega (arith, h, q, v))

next-Running :
    (o : Option Loop) (k : Loop → Option Loop)
    → Running o
    → ((l : Loop) → l.visited ≤ length l.client → Running (k l))
    → Running (and_next o k)
next-Running _ k (running l h) f = f l h

-- From a state in which the indexes to visit are in the table, such as the empty table at the start,
-- the server goes on through any sequence of rounds, whichever clients connect, send requests
-- and close their connections: `client_del` does not end the process, no index is out of the
-- table, and the indexes to visit stay in it. The system calls are taken to succeed.
pub select_rounds-Running :
    (junk : ℕ) (rs : List (Option (ℕ × ℕ) × (ℕ → Input))) (l : Loop)
    → l.visited ≤ length l.client
    → Running (select_rounds junk rs l)
unfolding select_rounds
select_rounds-Running junk [] l h = running l h
select_rounds-Running junk ((accepted, input) ∷ rs) l h =
    next-Running (select_round junk accepted input l) (λ l'. select_rounds junk rs l')
      (select_round-Running junk accepted input l h) (λ l' h'. select_rounds-Running junk rs l' h')
