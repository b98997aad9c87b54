-- ===== src/Opend/SelectLoop/Rounds.antt =====
-- A round of the loop of ipc2/opend/loop.select.c comes to an end and serves registered clients only.
use apue_learning.Common.{
  ℕ, zero, suc, ◌+◌, ◌≤◌, ◌<◌, ◌≡◌, ◌≢◌, refl, ap, ◌∙◌, sym, List, [], ◌∷◌, ◌++◌, Option, none,
  some, get_elem?, length, All, All-append, arith,
}
use apue_learning.Opend.{Client, client_del}
use apue_learning.Opend.Disconnect.{Lacks, Deleted, absent, freed, client_del-Deleted}
use apue_learning.Opend.SelectLoop.{
  Input, quiet, closed, request, Handled, Loop, serve, visit_fd, visit, and_next, scan_clients,
  select_round, closed_client,
}

-- The pair of a handled request's descriptor and user is an entry of the table.
abbrev pub Registered : List Client → Handled → Type 0
Registered table h =
    (i : ℕ) × (get_elem? table i ≡ some (record { fd = some h.clifd; uid = h.uid }))

-- Entries have only been made available since the table was `start`.
pub record Since (start : List Client) (l : Loop) : Type 0 where
  pub kept :
      (i fd uid : ℕ)
      → get_elem? l.client i ≡ some (record { fd = some fd; uid = uid })
      → get_elem? start i ≡ some (record { fd = some fd; uid = uid })
  pub registered : All (Registered start) l.handled

-- A part of a round that does not end the process.
pub data Served (start : List Client) (l : Loop) : Option Loop → Type 0 where
  served :
      (l' : Loop)
      → Since start l'
      → length l'.client ≡ length l.client
      → l'.visited ≡ l.visited
      → Served start l (some l')

get_freed :
    (before : List Client) (old : Client) (after : List Client) (u i fd uid : ℕ)
    → get_elem? (before ++ record { fd = none; uid = u } ∷ after) i
      ≡ some (record { fd = some fd; uid = uid })
    → get_elem? (before ++ old ∷ after) i ≡ some (record { fd = some fd; uid = uid })
get_freed [] old after u zero fd uid e = absurd (ground arith)
get_freed [] old after u (suc i) fd uid e = e
get_freed (c ∷ before) old after u zero fd uid e = e
get_freed (c ∷ before) old after u (suc i) fd uid e = get_freed before old after u i fd uid e

length_freed :
    (before : List Client) (x y : Client) (after : List Client)
    → length (before ++ x ∷ after) ≡ length (before ++ y ∷ after)
length_freed [] x y after = refl
length_freed (c ∷ before) x y after = ap suc (length_freed before x y after)

not_absent :
    (t : List Client) (fd i uid : ℕ)
    → All (Lacks fd) t
    → get_elem? t i ≢ some (record { fd = some fd; uid = uid })
not_absent [] fd i uid h = λ e. cc
not_absent (c ∷ t) fd zero uid h =
    λ e. h.0 (let q : c ≡ record { fd = some fd; uid = uid } = cc in ap (λ x. x.fd) q)
not_absent (c ∷ t) fd (suc i) uid h = not_absent t fd i uid h.1

closed-Served :
    (start table : List Client) (l : Loop) (i fd uid : ℕ) (r : Option (List Client))
    → l.client ≡ table
    → Since start l
    → get_elem? table i ≡ some (record { fd = some fd; uid = uid })
    → Deleted fd table r
    → Served start l (closed_client l fd r)
closed-Served start _ l i fd uid _ q s e (absent {t} all) = absurd (not_absent t fd i uid all e)
closed-Served start _ l i fd uid _ q s e (freed before old after all k) =
    served _
      (record {
        kept = λ j f u h.
            s.kept j f u (ap (λ t. get_elem? t j) q ∙ get_freed before old after old.uid j f u h);
        registered = s.registered;
      })
      (length_freed before (record { fd = none; uid = old.uid }) old after ∙ ap length (sym q)) refl

serve-Served :
    (start : List Client) (l : Loop) (i fd uid : ℕ) (x : Input)
    → Since start l
    → get_elem? l.client i ≡ some (record { fd = some fd; uid = uid })
    → Served start l (serve l fd uid x)
serve-Served start l i fd uid quiet s e = served l s refl refl
serve-Served start l i fd uid closed s e =
    closed-Served start l.client l i fd uid (client_del fd l.client) refl s e
      (client_del-Deleted fd l.client)
serve-Served start l i fd uid (request buf) s e =
    served _
      (record {
        kept = s.kept;
        registered =
            All-append (Registered start) l.handled
              (record { buf = buf; clifd = fd; uid = uid } ∷ []) s.registered
              ((i, s.kept i fd uid e), tt);
      })
      refl refl

visit_fd-Served :
    (input : ℕ → Input) (start : List Client) (l : Loop) (i : ℕ) (f : Option ℕ) (uid : ℕ)
    → Since start l
    → get_elem? l.client i ≡ some (record { fd = f; uid = uid })
    → Served start l (visit_fd input l f uid)
visit_fd-Served input start l i none uid s e = served l s refl refl
visit_fd-Served input start l i (some fd) uid s e = serve-Served start l i fd uid (input fd) s e

visit-Served :
    (input : ℕ → Input) (start : List Client) (l : Loop) (i : ℕ) (o : Option Client)
    → Since start l
    → i < length l.client
    → get_elem? l.client i ≡ o
    → Served start l (visit input l o)
visit-Served input start l i none s h e = absurd (in_table l.client i h e)
  where
    in_table : (t : List Client) (j : ℕ) → j < length t → get_elem? t j ≢ none
    in_table [] j k = absurd (omega arith)
    in_table (c ∷ t) zero k = λ q. cc
    in_table (c ∷ t) (suc j) k = in_table t j (omega arith)
visit-Served input start l i (some c) s h e = visit_fd-Served input start l i c.fd c.uid s e

next-Served :
    (start : List Client) (l : Loop) (o : Option Loop) (k : Loop → Option Loop)
    → Served start l o
    → ((l' : Loop) → Since start l' → length l'.client ≡ length l.client → Served start l' (k l'))
    → Served start l (and_next o k)
next-Served start l _ k (served l' s q v) h = longer (h l' s q)
  where
    longer : {o : Option Loop} → Served start l' o → Served start l o
    longer (served l'' s' q' v') = served l'' s' (q' ∙ q) (v' ∙ v)

pub scan_clients-Served :
    (input : ℕ → Input) (start : List Client) (n i : ℕ) (l : Loop)
    → Since start l
    → i + n ≤ length l.client
    → Served start l (scan_clients input n i l)
unfolding scan_clients
scan_clients-Served input start zero i l s h = served l s refl refl
scan_clients-Served input start (suc n) i l s h =
    next-Served start l (visit input l (get_elem? l.client i))
      (λ l'. scan_clients input n (suc i) l')
      (visit-Served input start l i (get_elem? l.client i) s (omega arith) refl)
      (λ l' s' q. scan_clients-Served input start n (suc i) l' s' (omega (arith, q)))

-- A round that does not end the process, of which each request was of an entry of the table.
pub data Answered (table : List Client) : Option Loop → Type 0 where
  answered :
      (l : Loop)
      → All (Registered table) l.handled
      → length l.client ≡ length table
      → Answered table (some l)

-- When the indexes to visit are in the table, a round without a new client ends, whatever the clients
-- send and whichever close their connections: no index is out of the table and `client_del`
-- finds every descriptor that it is given. Each request is handled for a descriptor and a
-- user id that stand together in one entry of the table at the start of the round.
pub select_round-Answered :
    (junk : ℕ) (input : ℕ → Input) (l : Loop)
    → l.visited ≤ length l.client
    → Answered l.client (select_round junk none input l)
unfolding select_round
select_round-Answered junk input l h = finished (
    scan_clients-Served input l.client l.visited 0 (record l { handled = [] })
      (record { kept = λ i fd uid q. q; registered = tt }) (omega (arith, h)))
  where
    finished :
        {o : Option Loop} → Served l.client (record l { handled = [] }) o → Answered l.client o
    finished (served l' s q v) = answered l' s.registered q
