-- ===== src/Db/Session.antt =====
-- What a client of db/apue_db.h calls on an open data base, and a sequence of such calls.
use apue_learning.Common.{List, [], ◌∷◌, ℕ}
use apue_learning.Process.{Prog, ◌>>=◌, ◌>>◌, pure}
use apue_learning.Db.{Db}
use apue_learning.Db.Find.{db_fetch}
use apue_learning.Db.Delete.{db_delete}
use apue_learning.Db.Store.{Flag, db_store}
use apue_learning.Db.Scan.{db_rewind, db_nextrec}

pub data Call : Type 0 where
  fetch delete : List ℕ → Call
  put : List ℕ → List ℕ → Flag → Call
  rewind next : Call

unfoldable pub call : Call → Prog Db (Unit {0})
call (fetch key) = do r ← db_fetch key; pure tt
call (delete key) = do r ← db_delete key; pure tt
call (put key text flag) = do r ← db_store key text flag; pure tt
call rewind = db_rewind
call next = do r ← db_nextrec; pure tt

unfoldable pub calls : List Call → Prog Db (Unit {0})
calls [] = pure tt
calls (c ∷ cs) = do call c; calls cs
