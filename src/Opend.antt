-- ===== src/Opend.antt =====
-- The open server: its table of clients (ipc2/opend/client.c), what it does with a request
-- (ipc2/opend/request.c, ipc2/opend/cliargs.c and lib/bufargs.c), and the client's side (ipc2/open/open.c).
pub mod Clients
pub mod Disconnect
pub mod Args
pub mod Request
pub mod SelectLoop
pub mod PollLoop
mod Tests
use apue_learning.Common.{
  ℕ, suc, Bool, List, [], ◌∷◌, ◌++◌, Option, none, some, true, false, ◌==◌, if◌then◌else◌,
  replicate,
}

-- One entry of `client[]`: `fd` is `none` where the source has -1, an available entry.
pub record Client : Type 0 where
  pub fd : Option ℕ
  pub uid : ℕ

abbrev pub nalloc : ℕ
nalloc = 10

-- `client_alloc`: new entries are available; `junk` is the memory of their `uid` fields.
unfoldable pub client_alloc : (junk : ℕ) → List Client → List Client
client_alloc junk t = t ++ replicate nalloc (record { fd = none; uid = junk })

-- The search of `client_add` for an available entry.
unfoldable pub claim : ℕ → ℕ → List Client → Option (ℕ × List Client)
claim fd uid [] = none
claim fd uid (c ∷ t) = elim c.fd [
  | none ↦ some (0, record { fd = some fd; uid = uid } ∷ t)
  | some _ ↦ elim (claim fd uid t) [ none ↦ none | some (i, t') ↦ some (suc i, c ∷ t') ]
]

abbrev pub or_else : Option (ℕ × List Client) → Option (ℕ × List Client) → Option (ℕ × List Client)
or_else none b = b
or_else (some a) b = some a

abbrev is_empty : List Client → Bool
is_empty [] = true
is_empty (_ ∷ _) = false

-- `client_add`: the index and the table. The second search is the `goto again`; `none` would mean
-- that it fails too.
unfoldable pub client_add : (junk : ℕ) → ℕ → ℕ → List Client → Option (ℕ × List Client)
client_add junk fd uid t =
    let start = if is_empty t then client_alloc junk t else t in
    or_else (claim fd uid start) (claim fd uid (client_alloc junk start))

abbrev pub same_fd : Option ℕ → ℕ → Bool
same_fd none fd = false
same_fd (some n) fd = n == fd

-- `client_del`; `none` is the `log_quit`.
unfoldable pub client_del : ℕ → List Client → Option (List Client)
client_del fd [] = none
client_del fd (c ∷ t) = elim (same_fd c.fd fd) [
  | true ↦ some (record c { fd = none } ∷ t)
  | false ↦ elim (client_del fd t) [ none ↦ none | some t' ↦ some (c ∷ t') ]
]
