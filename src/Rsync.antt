-- ===== src/Rsync.antt =====
-- The multi-threaded copier, Multi_thread_rsync_task/sync_util.c: the list of files that the threads
-- share and the threads' own steps. A mutex is held over each access to the list and to the counters,
-- so that an access is one step.
pub mod Files
pub mod Progress
pub mod Paths
pub mod Compare
pub mod Traverse
pub mod Copy
mod Tests
use apue_learning.Common.{
  ℕ, ℤ, suc, ◌+◌, ◌*◌, Bool, true, false, List, [], ◌∷◌, ◌++◌, Option, none, some, leb,
  if◌then◌else◌, take, set, get_elem?, replicate, ◌-◌,
}

abbrev pub max_path_len : ℕ
max_path_len = 1024

pub record FileInfo : Type 0 where
  pub source_path : List ℕ
  pub target_path : List ℕ
  pub size : ℤ
  pub needs_sync : Bool

-- `files` is the allocated array; its slots from `count` on are not initialised.
pub record FileList : Type 0 where
  pub files : List FileInfo
  pub count : ℕ
  pub capacity : ℕ
  pub current_index : ℕ

-- `strncpy` of a path into its field, with the null byte put at the end.
abbrev pub copy_path : List ℕ → List ℕ
copy_path p = take (max_path_len - 1) p

-- `junk` is what fresh memory holds.
unfoldable pub init_file_list : FileInfo → FileList
init_file_list junk = record {
  files = replicate 100 junk;
  count = 0;
  capacity = 100;
  current_index = 0;
}

abbrev pub grow : FileInfo → FileList → FileList
grow junk l = record l { files = l.files ++ replicate l.capacity junk; capacity = l.capacity * 2 }

abbrev pub put_file : FileInfo → FileList → FileList
put_file f l = record l { files = set l.files l.count f; count = suc l.count }

abbrev pub new_file : List ℕ → List ℕ → ℤ → FileInfo
new_file source target size = record {
  source_path = copy_path source;
  target_path = copy_path target;
  size = size;
  needs_sync = true;
}

unfoldable pub add_file_to_list : FileInfo → FileList → List ℕ → List ℕ → ℤ → FileList
add_file_to_list junk l source target size =
    put_file (new_file source target size) (if leb l.capacity l.count then grow junk l else l)

-- The file at `current_index`; `none` is the NULL.
unfoldable pub get_next_file : FileList → Option FileInfo × FileList
get_next_file l =
    if leb l.count l.current_index
    then (none, l)
    else (get_elem? l.files l.current_index, record l { current_index = suc l.current_index })

-- Where a thread is in the loop of `worker_thread`.
pub data Stage : Type 0 where
  -- before `get_next_file`
  idle : Stage
  -- before `files_processed` is counted up
  taken : FileInfo → Stage
  -- before `sync_file`
  counted : FileInfo → Stage
  -- before the result of `sync_file` is counted
  tried : Bool → Stage
  -- after the loop
  stopped : Stage

-- What the threads of `perform_sync` share, the stage of each, and the calls of `sync_file` so far.
pub record System : Type 0 where
  pub file_list : FileList
  pub files_processed : ℕ
  pub files_synced : ℕ
  pub errors : ℕ
  pub workers : List Stage
  pub calls : List FileInfo

abbrev pub goto : ℕ → Stage → System → System
goto who st s = record s { workers = set s.workers who st }

abbrev pub after_get : ℕ → System → Option FileInfo × FileList → System
after_get who s (none, l) = goto who stopped (record s { file_list = l })
after_get who s (some f, l) = goto who (taken f) (record s { file_list = l })

-- One step of thread `who` from its stage; `result` is what `sync_file` returns if it is called.
unfoldable pub advance : ℕ → Bool → Stage → System → System
unfolding get_next_file
advance who result idle s = after_get who s (get_next_file s.file_list)
advance who result (taken f) s =
    goto who (if f.needs_sync then counted f else idle)
      (record s { files_processed = suc s.files_processed })
advance who result (counted f) s = goto who (tried result) (record s { calls = f ∷ s.calls })
advance who result (tried true) s = goto who idle (record s { files_synced = suc s.files_synced })
advance who result (tried false) s = goto who idle (record s { errors = suc s.errors })
advance who result stopped s = s

abbrev pub advance? : ℕ → Bool → System → Option Stage → System
advance? who result s none = s
advance? who result s (some st) = advance who result st s

unfoldable pub worker_step : ℕ × Bool → System → System
unfolding advance
worker_step (who, result) s = advance? who result s (get_elem? s.workers who)

-- The threads' steps in the order in which they happen to be scheduled.
unfoldable pub schedule : List (ℕ × Bool) → System → System
unfolding worker_step
schedule [] s = s
schedule (e ∷ es) s = schedule es (worker_step e s)

-- What `perform_sync` starts, with `thread_count` threads.
unfoldable pub start_workers : FileList → ℕ → System
start_workers l thread_count = record {
  file_list = l;
  files_processed = 0;
  files_synced = 0;
  errors = 0;
  workers = replicate thread_count idle;
  calls = [];
}
