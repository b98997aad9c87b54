-- ===== src/MultiProcess/Lists.antt =====
-- The list of files of the copier of several processes as a sequence of paths.
use apue_learning.Common.{
  ℕ, ℤ, zero, suc, ◌+◌, ◌-◌, ◌≤◌, ◌<◌, ◌≡◌, refl, ap, ◌∙◌, sym, subst, List, [], ◌∷◌, ◌++◌, some,
  arith, leb, length, take, drop, get_elem?, replicate, map, length-append, length-replicate,
  Bool-cases, inl, inr, append_assoc, append-nil, All, if◌then◌else◌,
}
use apue_learning.Rsync.Files.{take-append_le, take-set, length-set}
use apue_learning.Rsync.Paths.{take_le}
use apue_learning.MultiProcess.{
  FileInfo, FileList, init_file_list, add_file_to_list, grow, add_range, add_found, worker_share,
  max_path_len,
}

pub record IsValid (l : FileList) : Type 0 where
  pub allocated : length l.files ≡ l.capacity
  pub count_le : l.count ≤ l.capacity
  pub capacity_pos : 0 < l.capacity

abbrev pub paths_of : List FileInfo → List (List ℕ)
paths_of fs = map (λ f. f.path) fs

-- The paths of the files in the list.
abbrev pub paths : FileList → List (List ℕ)
paths l = paths_of (take l.count l.files)

paths_of-append : (xs ys : List FileInfo) → paths_of (xs ++ ys) ≡ paths_of xs ++ paths_of ys
paths_of-append [] ys = refl
paths_of-append (x ∷ xs) ys = ap (λ l. x.path ∷ l) (paths_of-append xs ys)

-- A list whose array has a free slot behind the files.
record HasRoom (l l' : FileList) : Type 0 where
  valid : IsValid l'
  free : l'.count < l'.capacity
  same : paths l' ≡ paths l
  same_count : l'.count ≡ l.count

room-HasRoom :
    (junk : FileInfo) (l : FileList)
    → IsValid l
    → HasRoom l (if leb l.capacity l.count then grow junk l else l)
room-HasRoom junk l v = elim (Bool-cases (leb l.capacity l.count)) [
  | inl e ↦ rw e (record {
    valid = record {
      allocated = omega (
        arith,
        length-append l.files (replicate l.capacity junk),
        length-replicate l.capacity junk,
        v.allocated,
      );
      count_le = omega (arith, v.count_le);
      capacity_pos = omega (arith, v.capacity_pos);
    };
    free = omega (arith, v.capacity_pos, v.count_le);
    same = ap paths_of (
        take-append_le l.count l.files (replicate l.capacity junk)
          (omega (arith, v.count_le, v.allocated)));
    same_count = refl;
  })
  | inr e ↦ rw e (record { valid = v; free = ground (arith, e); same = refl; same_count = refl })
]

-- A list that is well formed and has these paths behind those of `l`.
pub record Extends (l l' : FileList) (more : List (List ℕ)) : Type 0 where
  pub valid : IsValid l'
  pub paths_eq : paths l' ≡ paths l ++ more
  pub count_eq : l'.count ≡ l.count + length more

pub Extends-refl : (l : FileList) → IsValid l → Extends l l []
Extends-refl l v = record {
  valid = v;
  paths_eq = sym (append-nil (paths l));
  count_eq = omega arith;
}

pub Extends-trans :
    (l l' l'' : FileList) (a b : List (List ℕ))
    → Extends l l' a
    → Extends l' l'' b
    → Extends l l'' (a ++ b)
Extends-trans l l' l'' a b e f = record {
  valid = f.valid;
  paths_eq = f.paths_eq ∙ ap (λ c. c ++ b) e.paths_eq ∙ append_assoc (paths l) a b;
  count_eq = omega (arith, e.count_eq, f.count_eq, length-append a b);
}

pub add_file-Extends :
    (junk : FileInfo) (get_file_size : List ℕ → ℤ) (l : FileList) (path : List ℕ)
    → IsValid l
    → Extends l (add_file_to_list junk get_file_size l path) (take 1023 path ∷ [])
unfolding add_file_to_list
add_file-Extends junk get_file_size l path v =
    let r = room-HasRoom junk l v in
    let l' = if leb l.capacity l.count then grow junk l else l in
    let f : FileInfo = record { path = take (max_path_len - 1) path; size = get_file_size path } in
    record {
      valid = record {
        allocated = length-set l'.files l'.count f ∙ r.valid.allocated;
        count_le = omega (arith, r.free);
        capacity_pos = r.valid.capacity_pos;
      };
      paths_eq =
          ap paths_of (take-set l'.count l'.files f (omega (arith, r.valid.allocated, r.free)))
          ∙ paths_of-append (take l'.count l'.files) (f ∷ [])
          ∙ ap (λ c. c ++ f.path ∷ []) r.same;
      count_eq = omega (arith, r.same_count);
    }

pub init_file_list-IsValid : (junk : FileInfo) → IsValid (init_file_list junk)
unfolding init_file_list
init_file_list-IsValid junk = record {
  allocated = length-replicate 100 junk;
  count_le = omega arith;
  capacity_pos = omega arith;
}

get-path :
    (n j : ℕ) (fs : List FileInfo)
    → j < n
    → n ≤ length fs
    → (f : FileInfo) × (get_elem? fs j ≡ some f)
      × (get_elem? (paths_of (take n fs)) j ≡ some f.path)
get-path zero j fs h k = absurd (omega arith)
get-path (suc n) j [] h k = absurd (omega arith)
get-path (suc n) zero (f ∷ fs) h k = (f, refl, refl)
get-path (suc n) (suc j) (f ∷ fs) h k = get-path n j fs (omega arith) (omega arith)

slice-next :
    (n j : ℕ) (xs : List (List ℕ)) (x : List ℕ)
    → get_elem? xs j ≡ some x
    → take (suc n) (drop j xs) ≡ x ∷ take n (drop (suc j) xs)
slice-next n j [] x h = absurd cc
slice-next n zero (y ∷ xs) x h = let q : y ≡ x = cc in ap (λ z. z ∷ take n xs) q
slice-next n (suc j) (y ∷ xs) x h = slice-next n j xs x h

All-get :
    (P : List ℕ → Type 0) (xs : List (List ℕ)) (j : ℕ) (x : List ℕ)
    → All P xs
    → get_elem? xs j ≡ some x
    → P x
All-get P [] j x h k = absurd cc
All-get P (y ∷ xs) zero x h k = let q : y ≡ x = cc in subst P q h.0
All-get P (y ∷ xs) (suc j) x h k = All-get P xs j x h.1 k

-- A range of the files, added to a list whose paths fit.
pub add_range-Extends :
    (junk : FileInfo) (get_file_size : List ℕ → ℤ) (files : FileList) (j n : ℕ) (l : FileList)
    → IsValid files
    → All (λ p. length p ≤ 1023) (paths files)
    → j + n ≤ files.count
    → IsValid l
    → Extends l (add_range junk get_file_size files j n l) (take n (drop j (paths files)))
unfolding add_range add_found
add_range-Extends junk gs files j zero l v fit h w = Extends-refl l w
add_range-Extends junk gs files j (suc n) l v fit h w =
    let (f, q, q') =
      get-path files.count j files.files (omega arith) (omega (arith, v.allocated, v.count_le)) in
    let ps = paths files in
    let short = All-get (λ p. length p ≤ 1023) ps j f.path fit q' in
    let l' = add_file_to_list junk gs l f.path in
    let e : Extends l l' (f.path ∷ []) =
      subst (λ p. Extends l l' (p ∷ [])) (take_le 1023 f.path short)
        (add_file-Extends junk gs l f.path w) in
    let r = add_range-Extends junk gs files (suc j) n l' v fit (omega arith) e.valid in
    rw q (
      subst (Extends l (add_range junk gs files (suc j) n l')) (sym (slice-next n j ps f.path q')) (
        Extends-trans l l' (add_range junk gs files (suc j) n l') (f.path ∷ [])
          (take n (drop (suc j) ps)) e r))

-- The list of a child is its range of the files.
pub worker_share-Extends :
    (junk : FileInfo) (get_file_size : List ℕ → ℤ) (files : FileList) (j k : ℕ)
    → IsValid files
    → All (λ p. length p ≤ 1023) (paths files)
    → j ≤ k
    → k ≤ files.count
    → Extends
        (init_file_list junk)
        (worker_share junk get_file_size files j k)
        (take (k - j) (drop j (paths files)))
unfolding worker_share
worker_share-Extends junk gs files j k v fit h h' =
    add_range-Extends junk gs files j (k - j) (init_file_list junk) v fit (omega arith)
      (init_file_list-IsValid junk)
