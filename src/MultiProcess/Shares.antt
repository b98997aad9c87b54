-- ===== src/MultiProcess/Shares.antt =====
-- How `perform_sync` deals the files out: each file to one child, in the order of the list.
use apue_learning.Common.{
  ℕ, ℤ, zero, suc, ◌+◌, ◌-◌, ◌*◌, ◌/◌, ◌%◌, ◌≤◌, ◌<◌, ◌≡◌, refl, ap, ◌∙◌, Bool, true, List, [], ◌∷◌,
  ◌++◌, arith, ◌==◌, length, take, drop, All, if◌then◌else◌, drop-drop, length-drop, length-take,
  append-nil,
}
use apue_learning.MultiProcess.{
  FileInfo, FileList, Child, init_file_list, worker_share, start_children,
}
use apue_learning.MultiProcess.Lists.{IsValid, paths, paths_of, worker_share-Extends}

-- The paths of all the children's files, child by child.
abbrev pub all_paths : List Child → List (List ℕ)
all_paths [] = []
all_paths (c ∷ cs) = paths c.worker_files ++ all_paths cs

take-drop : (n : ℕ) (xs : List (List ℕ)) → take n xs ++ drop n xs ≡ xs
take-drop zero xs = refl
take-drop (suc n) [] = refl
take-drop (suc n) (x ∷ xs) = ap (λ l. x ∷ l) (take-drop n xs)

take_all_drop :
    (n k : ℕ) (xs : List (List ℕ)) → length xs ≤ k → take (k - n) (drop n xs) ≡ drop n xs
take_all_drop n k xs h = take_le_any (k - n) (drop n xs) (omega (arith, length-drop n xs))
  where
    take_le_any : (n : ℕ) (xs : List (List ℕ)) → length xs ≤ n → take n xs ≡ xs
    take_le_any zero [] h = refl
    take_le_any zero (x ∷ xs) h = absurd (omega arith)
    take_le_any (suc n) [] h = refl
    take_le_any (suc n) (x ∷ xs) h = ap (λ l. x ∷ l) (take_le_any n xs (omega arith))

drop_next :
    (n m : ℕ) (xs : List (List ℕ)) → take (n + m + 0 - n) (drop n xs) ++ drop (n + m) xs ≡ drop n xs
drop_next n m xs =
    let q : n + m + 0 - n ≡ m = omega arith in rw (q, ← drop-drop n m xs) (take-drop m (drop n xs))

length-paths_of : (fs : List FileInfo) → length (paths_of fs) ≡ length fs
length-paths_of [] = refl
length-paths_of (f ∷ fs) = ap suc (length-paths_of fs)

-- A share has between `low` and `high` files.
abbrev pub Between : ℕ → ℕ → Child → Type 0
Between low high c = (low ≤ c.worker_files.count) × (c.worker_files.count ≤ high)

length-paths : (l : FileList) → IsValid l → length (paths l) ≡ l.count
length-paths l v =
    length-paths_of (take l.count l.files)
    ∙ length-take l.count l.files (omega (arith, v.allocated, v.count_le))

pub no_paths : (junk : FileInfo) → paths (init_file_list junk) ≡ []
unfolding init_file_list
no_paths junk = refl

pub no_count : (junk : FileInfo) → (init_file_list junk).count ≡ 0
unfolding init_file_list
no_count junk = refl

-- The children that a loop has started.
pub record Dealt (n low high : ℕ) (files : List (List ℕ)) (cs : List Child × Bool) : Type 0 where
  pub started : cs.1 ≡ true
  pub number : length cs.0 ≡ n
  pub shares : all_paths cs.0 ≡ files
  pub fair : All (Between low high) cs.0

module _ (junk : FileInfo) (get_file_size : List ℕ → ℤ) (fork : ℕ → Bool) (files : FileList)
    (process_count : ℕ) (v : IsValid files) (fit : All (λ p. length p ≤ 1023) (paths files))
    (pc : 0 < process_count) (ok : (i : ℕ) → fork i ≡ true) where
  abbrev per : ℕ
  per = files.count / process_count

  abbrev rem : ℕ
  rem = files.count % process_count

  abbrev loop : ℕ → ℕ → ℕ → List Child × Bool
  loop left i start = start_children junk get_file_size fork files process_count left i start

  abbrev share : ℕ → ℕ → FileList
  share j k = worker_share junk get_file_size files j k

  share-paths :
      (j k : ℕ)
      → j ≤ k
      → k ≤ files.count
      → (paths (share j k) ≡ take (k - j) (drop j (paths files))) × ((share j k).count ≡ k - j)
  share-paths j k h h' =
      let e = worker_share-Extends junk get_file_size files j k v fit h h' in
      (
        e.paths_eq ∙ ap (λ l. l ++ take (k - j) (drop j (paths files))) (no_paths junk),
        omega (
          arith,
          e.count_eq,
          no_count junk,
          length-take (k - j) (drop j (paths files))
              (omega (arith, length-drop j (paths files), length-paths files v)),
          length-drop j (paths files),
          length-paths files v,
        ),
      )

  start_one :
      (left i start end : ℕ)
      → (if i == process_count - 1 then rem else 0) ≡ end
      → loop (suc left) i start ≡ (
        record { worker_id = i; worker_files = share start (start + per + end) }
            ∷ (loop left (suc i) (start + per)).0,
        (loop left (suc i) (start + per)).1,
      )
  unfolding start_children
  start_one left i start end h = rw (ok i, h) refl

  nothing_left : (i start : ℕ) → loop 0 i start ≡ ([], true)
  unfolding start_children
  nothing_left i start = refl

  deal :
      (left i start : ℕ)
      → i + suc left ≡ process_count
      → start + suc left * per + rem ≡ files.count
      → Dealt (suc left) per (per + rem) (drop start (paths files)) (loop (suc left) i start)
  deal zero i start h k =
      let last : (if i == process_count - 1 then rem else 0) ≡ rem = ground (arith, h) in
      let p = share-paths start (start + per + rem) (omega arith) (omega (arith, k)) in
      rw (start_one zero i start rem last) (
        rw (nothing_left (suc i) (start + per)) (record {
          started = refl;
          number = refl;
          shares =
              append-nil (paths (share start (start + per + rem)))
              ∙ p.0
              ∙ take_all_drop start (start + per + rem) (paths files)
                  (omega (arith, k, length-paths files v));
          fair = ((omega (arith, p.1), omega (arith, p.1)), tt);
        }))
  deal (suc left) i start h k =
      let more : (if i == process_count - 1 then rem else 0) ≡ 0 = ground (arith, h) in
      let p = share-paths start (start + per + 0) (omega arith) (omega (arith, k)) in
      let r = deal left (suc i) (start + per) (omega (arith, h)) (omega (arith, k)) in
      rw (start_one (suc left) i start 0 more) (record {
        started = r.started;
        number = ap suc r.number;
        shares =
            ap (λ l. paths (share start (start + per + 0)) ++ l) r.shares
            ∙ ap (λ l. l ++ drop (start + per) (paths files)) p.0
            ∙ drop_next start per (paths files);
        fair = ((omega (arith, p.1), omega (arith, p.1)), r.fair);
      })

-- When every `fork` succeeds and there is at least one process, `perform_sync` starts
-- `process_count` children. Their shares, one behind the other, are the files of the list in their order, so
-- that every file is in the share of just one child, and each child has at least the quotient of
-- the files by the processes and at most that and the remainder.
pub start_children-Dealt :
    (junk : FileInfo) (get_file_size : List ℕ → ℤ) (fork : ℕ → Bool) (files : FileList)
    (process_count : ℕ)
    → IsValid files
    → All (λ p. length p ≤ 1023) (paths files)
    → 0 < process_count
    → ((i : ℕ) → fork i ≡ true)
    → Dealt process_count
        (files.count / process_count)
        (files.count / process_count + files.count % process_count)
        (paths files)
        (start_children junk get_file_size fork files process_count process_count 0 0)
start_children-Dealt junk gs fork files zero v fit pc ok = absurd (omega arith)
start_children-Dealt junk gs fork files (suc n) v fit pc ok =
    deal junk gs fork files (suc n) v fit pc ok n 0 0 (omega arith) (omega arith)
