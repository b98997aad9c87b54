-- ===== src/Db.antt =====
-- The data base library: the `DB` structure of db/db.c, the constants of it and of db/apue_db.h,
-- and the record locks that the functions take. The functions are in the modules below.
--
-- The two files are lists of bytes. `idxpos` is the file offset of `idxfd`, which `db_nextrec`
-- reads on from. `idxbuf` and `datbuf` are the C strings at the buffers' start.
pub mod Index
pub mod Data
pub mod Find
pub mod Delete
pub mod Store
pub mod Scan
pub mod Session
pub mod Record
pub mod Append
pub mod Chain
pub mod Locks
mod Tests
use Prim.Native.String.{String}
use apue_learning.Common.{
  ℕ, zero, suc, ◌+◌, ◌-◌, ◌*◌, ◌%◌, ◌^◌, Bool, true, false, ◌&&◌, List, [], ◌∷◌, ◌++◌, Option, none,
  some, ℤ, pos, negsuc, ◌==◌, if◌then◌else◌,
}
use apue_learning.Process.{Prog, modify}

abbrev pub idxlen_sz : ℕ
idxlen_sz = 4

abbrev pub sep : ℕ
sep = b':'

abbrev pub space : ℕ
space = 32

abbrev pub newline : ℕ
newline = 10

abbrev pub ptr_sz : ℕ
ptr_sz = 7

abbrev pub ptr_max : ℕ
ptr_max = 9999999

abbrev pub nhash_def : ℕ
nhash_def = 137

abbrev pub free_off : ℕ
free_off = 0

abbrev pub hash_off : ℕ
hash_off = ptr_sz

abbrev pub idxlen_min : ℕ
idxlen_min = 6

abbrev pub idxlen_max : ℕ
idxlen_max = 1024

abbrev pub datlen_min : ℕ
datlen_min = 2

abbrev pub datlen_max : ℕ
datlen_max = 1024

pub data File : Type 0 where
  index_file data_file : File

abbrev pub same_file : File → File → Bool
same_file index_file index_file = true
same_file data_file data_file = true
same_file _ _ = false

-- A record lock on `len` bytes from `start`, to the end of the file and beyond if `len` is 0.
pub record Lock : Type 0 where
  pub file : File
  pub start : ℕ
  pub len : ℕ
  pub exclusive : Bool

-- `unsigned long` counters.
pub record Counts : Type 0 where
  pub delok : ℕ
  pub delerr : ℕ
  pub fetchok : ℕ
  pub fetcherr : ℕ
  pub nextrec : ℕ
  pub stor1 : ℕ
  pub stor2 : ℕ
  pub stor3 : ℕ
  pub stor4 : ℕ
  pub storerr : ℕ

abbrev pub inc : ℕ → ℕ
inc c = (c + 1) % 2 ^ 64

pub data Errno : Type 0 where
  no_error einval enoent : Errno

pub record Db : Type 0 where
  pub idx : List ℕ
  pub dat : List ℕ
  pub idxpos : ℕ
  pub idxbuf : List ℕ
  pub datbuf : List ℕ
  pub idxoff : ℕ
  pub idxlen : ℕ
  pub datoff : ℕ
  pub datlen : ℕ
  pub ptrval : ℤ
  pub ptroff : ℕ
  pub chainoff : ℕ
  pub hashoff : ℕ
  pub nhash : ℕ
  pub counts : Counts
  pub errno : Errno
  -- the record locks that the process holds
  pub held : List Lock

-- `readw_lock` and `writew_lock`: the process waits until the lock is granted.
unfoldable pub lock : File → ℕ → ℕ → Bool → Prog Db (Unit {0})
lock f start len exclusive = modify λ db. record db {
  held = record { file = f; start = start; len = len; exclusive = exclusive } ∷ db.held;
}

unfoldable pub release : File → ℕ → ℕ → List Lock → List Lock
release f start len [] = []
release f start len (l ∷ ls) =
    let rest = release f start len ls in
    if same_file f l.file && (start == l.start && len == l.len) then rest else l ∷ rest

-- `un_lock` of the range that was locked.
unfoldable pub unlock : File → ℕ → ℕ → Prog Db (Unit {0})
unfolding release
unlock f start len = modify λ db. record db { held = release f start len db.held }

-- `whence` of `lseek`.
pub data Whence : Type 0 where
  seek_set seek_end : Whence
