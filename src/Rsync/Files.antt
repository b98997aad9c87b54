-- ===== src/Rsync/Files.antt =====
-- The list of files as a sequence: `add_file_to_list` appends and `get_next_file` goes through it.
use apue_learning.Common.{
  ℕ, ℤ, zero, suc, ◌*◌, ◌≤◌, ◌<◌, ◌≡◌, refl, ap, ◌∙◌, List, [], ◌∷◌, ◌++◌, some, arith, leb, length,
  take, set, get_elem?, replicate, length-append, length-replicate, Bool-cases, inl, inr,
  if◌then◌else◌, Bool,
}
use apue_learning.Rsync.{
  FileInfo, FileList, add_file_to_list, init_file_list, new_file, grow, put_file,
}

pub record IsValid (l : FileList) : Type 0 where
  pub allocated : length l.files ≡ l.capacity
  pub count_le : l.count ≤ l.capacity
  pub index_le : l.current_index ≤ l.count
  pub capacity_pos : 0 < l.capacity

-- The files in the list.
abbrev pub contents : FileList → List FileInfo
contents l = take l.count l.files

module _ {A : Type 0} where
  pub take-append_le : (n : ℕ) (xs ys : List A) → n ≤ length xs → take n (xs ++ ys) ≡ take n xs
  take-append_le zero xs ys h = refl
  take-append_le (suc n) [] ys h = absurd (omega arith)
  take-append_le (suc n) (x ∷ xs) ys h = ap (λ l. x ∷ l) (take-append_le n xs ys (omega arith))

  pub take-set :
      (n : ℕ) (xs : List A) (a : A)
      → n < length xs
      → take (suc n) (set xs n a) ≡ take n xs ++ a ∷ []
  take-set zero [] a h = absurd (omega arith)
  take-set zero (x ∷ xs) a h = refl
  take-set (suc n) [] a h = absurd (omega arith)
  take-set (suc n) (x ∷ xs) a h = ap (λ l. x ∷ l) (take-set n xs a (omega arith))

  pub length-set : (xs : List A) (n : ℕ) (a : A) → length (set xs n a) ≡ length xs
  length-set [] n a = refl
  length-set (x ∷ xs) zero a = refl
  length-set (x ∷ xs) (suc n) a = ap suc (length-set xs n a)

  pub get_elem?-some : (xs : List A) (n : ℕ) → n < length xs → (a : A) × (get_elem? xs n ≡ some a)
  get_elem?-some [] n h = absurd (omega arith)
  get_elem?-some (x ∷ xs) zero h = (x, refl)
  get_elem?-some (x ∷ xs) (suc n) h = get_elem?-some xs n (omega arith)

abbrev room : FileInfo → FileList → Bool → FileList
room junk l b = if b then grow junk l else l

-- A list with room for one more file.
record HasRoom (l l' : FileList) : Type 0 where
  valid : IsValid l'
  free : l'.count < l'.capacity
  same : contents l' ≡ contents l
  same_count : l'.count ≡ l.count
  same_index : l'.current_index ≡ l.current_index

length-grow :
    (junk : FileInfo) (l : FileList) → IsValid l → length ((grow junk l).files) ≡ l.capacity * 2
length-grow junk l v = omega (
  arith,
  length-append l.files (replicate l.capacity junk),
  length-replicate l.capacity junk,
  v.allocated,
)

room-HasRoom :
    (junk : FileInfo) (l : FileList) → IsValid l → HasRoom l (room junk l (leb l.capacity l.count))
room-HasRoom junk l v = elim (Bool-cases (leb l.capacity l.count)) [
  | inl e ↦ rw e (record {
    valid = record {
      allocated = length-grow junk l v;
      count_le = omega (arith, v.count_le);
      index_le = v.index_le;
      capacity_pos = omega (arith, v.capacity_pos);
    };
    free = omega (arith, v.capacity_pos, v.count_le);
    same =
        take-append_le l.count l.files (replicate l.capacity junk)
          (omega (arith, v.count_le, v.allocated));
    same_count = refl;
    same_index = refl;
  })
  | inr e ↦ rw e (record {
    valid = v;
    free = ground (arith, e);
    same = refl;
    same_count = refl;
    same_index = refl;
  })
]

put_file-contents :
    (f : FileInfo) (l : FileList)
    → IsValid l
    → l.count < l.capacity
    → contents (put_file f l) ≡ contents l ++ f ∷ []
put_file-contents f l v h = take-set l.count l.files f (omega (arith, v.allocated))

put_file-IsValid :
    (f : FileInfo) (l : FileList) → IsValid l → l.count < l.capacity → IsValid (put_file f l)
put_file-IsValid f l v h = record {
  allocated = length-set l.files l.count f ∙ v.allocated;
  count_le = omega arith;
  index_le = omega (arith, v.index_le);
  capacity_pos = v.capacity_pos;
}

pub init_file_list-IsValid : (junk : FileInfo) → IsValid (init_file_list junk)
unfolding init_file_list
init_file_list-IsValid junk = record {
  allocated = length-replicate 100 junk;
  count_le = omega arith;
  index_le = omega arith;
  capacity_pos = omega arith;
}

-- On a list whose array is as long as its capacity says and holds the files and the position, adding
-- a file keeps that so, enlarges the array when it is full, and puts the new file behind the others,
-- its paths cut to 1,023 bytes.
pub add_file_to_list-contents :
    (junk : FileInfo) (l : FileList) (source target : List ℕ) (size : ℤ)
    → IsValid l
    → IsValid (add_file_to_list junk l source target size)
      × (contents (add_file_to_list junk l source target size)
          ≡ contents l ++ new_file source target size ∷ [])
unfolding add_file_to_list
add_file_to_list-contents junk l source target size v =
    let r = room-HasRoom junk l v in
    let f = new_file source target size in
    let l' = room junk l (leb l.capacity l.count) in
    (
      put_file-IsValid f l' r.valid r.free,
      put_file-contents f l' r.valid r.free ∙ ap (λ c. c ++ f ∷ []) r.same,
    )
