-- ===== src/Db/Data.antt =====
-- Data records: `_db_readdat` and `_db_writedat` of db/db.c.
use apue_learning.Common.{
  ℕ, ◌+◌, ◌-◌, true, List, [], ◌∷◌, ◌++◌, Option, none, some, ◌==◌, length, take, get_elem?,
}
use apue_learning.CString.{c_str}
use apue_learning.Bytes.{read_at, write_at}
use apue_learning.Process.{end_with, check, Prog, done, ◌>>◌, pure, modify}
use apue_learning.Db.{Db, data_file, Whence, seek_set, seek_end, lock, unlock, newline}
use apue_learning.Db.Index.{target}

-- The sanity check of the last byte.
check_newline : Option ℕ → Prog Db (Unit {0})
check_newline none = end_with "_db_readdat: missing newline"
check_newline (some c) = check (c == newline) "_db_readdat: missing newline"

unfoldable pub read_data : ℕ → Prog Db (List ℕ)
unfolding check_newline
read_data n db =
    let b = read_at db.dat db.datoff n in
    (do
      check (length b == n) "_db_readdat: read error"
      check_newline (get_elem? b (n - 1))
      λ s. let text = c_str (take (n - 1) b) in done text (record s { datbuf = text }))
      db

-- `_db_readdat`
unfoldable pub db_readdat : Prog Db (List ℕ)
unfolding read_data
db_readdat db = read_data db.datlen db

unfoldable pub data_lock : Whence → Prog Db (Unit {0})
data_lock seek_set = pure tt
data_lock seek_end = lock data_file 0 0 true

unfoldable pub data_unlock : Whence → Prog Db (Unit {0})
data_unlock seek_set = pure tt
data_unlock seek_end = unlock data_file 0 0

-- The `lseek` and the `writev` of the data and a newline.
unfoldable pub put_data : List ℕ → ℕ → Whence → Prog Db (Unit {0})
put_data text offset whence = modify λ db.
    let at = target whence offset db.dat in
    record db {
      dat = write_at db.dat at (text ++ newline ∷ []);
      datoff = at;
      datlen = length text + 1;
    }

-- `_db_writedat`
unfoldable pub db_writedat : List ℕ → ℕ → Whence → Prog Db (Unit {0})
unfolding data_lock data_unlock put_data
db_writedat text offset whence = do
  data_lock whence
  put_data text offset whence
  data_unlock whence
