-- ===== src/Opend/PollLoop/Scan.antt =====
-- The scan of the array in ipc2/opend/loop.poll.c, and what the array and the table of clients share.
use apue_learning.Common.{
  ℕ, zero, suc, ◌+◌, ◌-◌, ◌≤◌, ◌<◌, ◌≡◌, refl, ap, ◌∙◌, sym, subst, List, [], ◌∷◌, Option, some,
  length, get_elem?, set, arith, ltb, Bool-cases, inl, inr,
}
use apue_learning.Opend.{Client, client_del}
use apue_learning.Opend.PollLoop.{
  PollFd, Poll, Event, unused, pack, hung_up, read_request, check_entry, at_index, go_on, poll_scan,
}
use apue_learning.Opend.PollLoop.Polled.{
  hit, polls, Named, used, Named-get, Named-fewer, Named-set, polls-last, polls-set, length-set,
}
use apue_learning.Opend.PollLoop.Table.{
  holds, taken, taken-length, DeletedFrom, deleted_from, client_del-DeletedFrom,
}

-- The first `numfd` entries of the array have the descriptors of the clients, each as often as the table;
-- `maxfd` is the length of the array.
pub record Agrees (l : Poll) : Type 0 where
  pub named : Named l.numfd l.pollfd
  pub same : (x : ℕ) → polls x l.numfd l.pollfd ≡ holds x l.client
  pub number : taken l.client ≡ l.numfd
  pub room : length l.pollfd ≡ l.maxfd
  pub listens : 1 ≤ l.numfd

-- The server goes on.
pub data Polling : Option Poll → Type 0 where
  polling : (l : Poll) → Agrees l → Polling (some l)

-- The loop over the array goes on, one entry nearer to its end.
data Nearer (i n : ℕ) : Option (ℕ × Poll) → Type 0 where
  nearer : (j : ℕ) (l : Poll) → Agrees l → 1 ≤ j → l.numfd - j < n - i → Nearer i n (some (j, l))

hit_same : (fd : ℕ) → hit (some fd) fd ≡ 1
hit_same fd = ground arith

module _ (l : Poll) (a : Agrees l) (i : ℕ) (begun : 1 ≤ i) (lt : i < l.numfd) where
  -- A descriptor that is polled is a client's.
  is_client :
      (e : PollFd) (fd : ℕ) → get_elem? l.pollfd i ≡ some e → e.fd ≡ some fd → 0 < holds fd l.client
  is_client e fd q k = omega (
    arith,
    a.same fd,
    polls-set fd l.numfd i l.pollfd e unused q lt,
    ap (λ f. hit f fd) k,
    hit_same fd,
  )

  next_entry : (l' : Poll) → Agrees l' → l'.numfd ≡ l.numfd → Nearer i l.numfd (some (suc i, l'))
  next_entry l' a' q = nearer (suc i) l' a' (omega arith) (omega (arith, q))

  pack-Nearer :
      (e : PollFd) (fd : ℕ) (client : List Client) (n : ℕ)
      → get_elem? l.pollfd i ≡ some e
      → e.fd ≡ some fd
      → ((x : ℕ) → holds x client + hit (some fd) x ≡ holds x l.client)
      → suc (taken client) ≡ taken l.client
      → l.numfd ≡ suc n
      → i < n
      → Nearer i l.numfd (pack i client l (get_elem? l.pollfd (l.numfd - 1)))
  pack-Nearer e fd client n q k h m z lt' =
      let (last, g, u) = Named-get l.numfd (l.numfd - 1) l.pollfd a.named (omega arith) in
      let named : Named n l.pollfd =
        Named-fewer n l.pollfd (subst (λ w. Named w l.pollfd) z a.named) in
      let pred : l.numfd - 1 ≡ n = omega (arith, z) in
      let at_last : get_elem? l.pollfd n ≡ some last = ap (get_elem? l.pollfd) (sym pred) ∙ g in
      rw g (
        nearer i (record l { client = client; pollfd = set l.pollfd i last; numfd = l.numfd - 1 })
          (record {
            named =
                subst (λ w. Named w (set l.pollfd i last)) (sym pred)
                  (Named-set n i l.pollfd last named u);
            same = λ x. omega (
              arith,
              ap (λ w. polls x w (set l.pollfd i last)) pred,
              polls-set x n i l.pollfd e last q lt',
              polls-last x n l.pollfd last at_last,
              ap (λ w. polls x w l.pollfd) z,
              a.same x,
              h x,
              ap (λ f. hit f x) k,
            );
            number = omega (arith, m, a.number);
            room = length-set l.pollfd i last ∙ a.room;
            listens = omega (arith, z, lt');
          })
          begun (omega (arith, z, lt')))

  hung_up-Nearer :
      (e : PollFd) (fd : ℕ) (n : ℕ) (r : Option (List Client))
      → get_elem? l.pollfd i ≡ some e
      → e.fd ≡ some fd
      → l.numfd ≡ suc n
      → DeletedFrom fd l.client r
      → Nearer i l.numfd (hung_up i l r)
  hung_up-Nearer e fd n _ q k z (deleted_from client h m) =
      let pred : l.numfd - 1 ≡ n = omega (arith, z) in
      elim (Bool-cases (ltb i (l.numfd - 1))) [
        | inl c ↦ rw c (pack-Nearer e fd client n q k h m z (ground (arith, c, z)))
        | inr c ↦
            let same_i : i ≡ n = ground (arith, c, z, lt) in
            rw c (
              nearer (suc i) (record l { client = client; numfd = l.numfd - 1 })
                (record {
                  named =
                      subst (λ w. Named w l.pollfd) (sym pred)
                        (Named-fewer n l.pollfd (subst (λ w. Named w l.pollfd) z a.named));
                  same = λ x. omega (
                    arith,
                    ap (λ w. polls x w l.pollfd) pred,
                    polls-last x n l.pollfd e (ap (get_elem? l.pollfd) (sym same_i) ∙ q),
                    ap (λ w. polls x w l.pollfd) z,
                    a.same x,
                    h x,
                    ap (λ f. hit f x) k,
                  );
                  number = omega (arith, m, a.number);
                  room = a.room;
                  listens = omega (arith, z, same_i, begun);
                })
                (omega arith) (omega (arith, z, same_i)))
      ]

  deleted-Nearer :
      (e : PollFd) (fd : ℕ)
      → get_elem? l.pollfd i ≡ some e
      → e.fd ≡ some fd
      → Nearer i l.numfd (hung_up i l (client_del fd l.client))
  deleted-Nearer e fd q k =
      hung_up-Nearer e fd (l.numfd - 1) (client_del fd l.client) q k (omega (arith, lt))
        (client_del-DeletedFrom fd l.client (is_client e fd q k))

  read-Nearer :
      (e : PollFd) (fd uid : ℕ) (buf : List ℕ)
      → get_elem? l.pollfd i ≡ some e
      → e.fd ≡ some fd
      → Nearer i l.numfd (read_request i l uid fd buf)
  read-Nearer e fd uid [] q k = deleted-Nearer e fd q k
  read-Nearer e fd uid (c ∷ buf) q k =
      next_entry _
        (record {
          named = a.named;
          same = a.same;
          number = a.number;
          room = a.room;
          listens = a.listens;
        })
        refl

  check-Nearer :
      (input : ℕ → Event) (e : PollFd) (fd uid : ℕ)
      → get_elem? l.pollfd i ≡ some e
      → e.fd ≡ some fd
      → Nearer i l.numfd (check_entry input i l e (some fd) uid)
  check-Nearer input e fd uid q k = elim (Bool-cases e.pollhup) [
    | inl c ↦ rw c (deleted-Nearer e fd q k)
    | inr c ↦ elim (Bool-cases e.pollin) [
      | inl d ↦ rw (c, d) (read-Nearer e fd uid (input fd).buf q k)
      | inr d ↦ rw (c, d) (next_entry l a refl)
    ]
  ]

  -- The index is in both arrays.
  at-Nearer :
      (input : ℕ → Event)
      → Nearer i l.numfd (at_index input i l (get_elem? l.pollfd i) (get_elem? l.client i))
  at-Nearer input =
      let (e, q, u) = Named-get l.numfd i l.pollfd a.named lt in
      let (fd, k) = used e.fd u in
      let (c, g) = there l.client i (omega (arith, taken-length l.client, a.number)) in
      rw (q, g, k) (check-Nearer input e fd c.uid q k)
    where
      there : (t : List Client) (j : ℕ) → j < length t → (c : Client) × (get_elem? t j ≡ some c)
      there [] j h = absurd (omega arith)
      there (c ∷ t) zero h = (c, refl)
      there (c ∷ t) (suc j) h = there t j (omega arith)

onward :
    (i n : ℕ) (r : Option (ℕ × Poll)) (k : ℕ → Poll → Option Poll)
    → Nearer i n r
    → ((j : ℕ) (l : Poll) → Agrees l → 1 ≤ j → l.numfd - j < n - i → Polling (k j l))
    → Polling (go_on r k)
onward i n _ k (nearer j l a b h) f = f j l a b h

-- With more rounds than there are entries from `i` on, the loop over the array ends.
pub scan-Polling :
    (input : ℕ → Event) (f i : ℕ) (l : Poll)
    → Agrees l
    → 1 ≤ i
    → l.numfd - i < f
    → Polling (poll_scan input f i l)
unfolding poll_scan
scan-Polling input zero i l a b h = absurd (omega arith)
scan-Polling input (suc f) i l a b h = elim (Bool-cases (ltb i l.numfd)) [
  | inr e ↦ rw e (polling l a)
  | inl e ↦ rw e (
      onward i l.numfd (at_index input i l (get_elem? l.pollfd i) (get_elem? l.client i))
        (λ j l'. poll_scan input f j l') (at-Nearer l a i b (ground (arith, e)) input)
        (λ j l' a' b' h'. scan-Polling input f j l' a' b' (omega (arith, h, h'))))
]
