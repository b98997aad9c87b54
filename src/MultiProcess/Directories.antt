-- ===== src/MultiProcess/Directories.antt =====
-- `create_directory` of the copier of several processes changes no file.
use apue_learning.Common.{
  ℕ, ◌≡◌, refl, ◌∙◌, Bool, true, List, [], ◌∷◌, ◌++◌, Option, none, some, ◌==◌, take, length,
  Bool-cases, inl, inr,
}
use apue_learning.Rsync.Copy.{strip_slash}
use apue_learning.MultiProcess.Disk.{
  Disk, Os, file_exists, make_directory, make_parents, from_second, create_directory,
}

-- A system on which no read of an open file fails, and no `fclose` loses bytes that were written.
pub record Reliable (os : Os) : Type 0 where
  pub gives_all : (p : List ℕ) (n : ℕ) → os.gives p n ≡ n
  pub flushes_all : (p : List ℕ) (n : ℕ) → os.flushes p n ≡ n

-- A system that permits everything, takes every piece whole and is reliable.
pub record Permits (os : Os) : Type 0 where
  pub reads : (p : List ℕ) → os.can_read p ≡ true
  pub writes : (p : List ℕ) → os.can_write p ≡ true
  pub makes : (p : List ℕ) → os.can_make p ≡ true
  pub takes : (p piece : List ℕ) → os.accepts p piece ≡ length piece
  pub reliable : Reliable os

make_directory-files :
    (os : Os) (path : List ℕ) (disk : Disk) → (make_directory os path disk).1.files ≡ disk.files
unfolding make_directory
make_directory-files os path disk = elim (Bool-cases (file_exists disk path)) [
  | inl e ↦ rw e refl
  | inr e ↦ elim (Bool-cases (os.can_make path)) [ inl m ↦ rw (e, m) refl | inr m ↦ rw (e, m) refl ]
]

make_directory-true :
    (os : Os) (path : List ℕ) (disk : Disk) → Permits os → (make_directory os path disk).0 ≡ true
unfolding make_directory
make_directory-true os path disk h = elim (Bool-cases (file_exists disk path)) [
  | inl e ↦ rw e refl
  | inr e ↦ rw (e, h.makes path) refl
]

make_parents-files :
    (os : Os) (front rest : List ℕ) (disk : Disk)
    → (make_parents os front rest disk).1.files ≡ disk.files
unfolding make_parents
make_parents-files os front [] disk = make_directory-files os front disk
make_parents-files os front (c ∷ rest) disk = elim (Bool-cases (c == b'/')) [
  | inl e ↦ elim (Bool-cases ((make_directory os front disk).0)) [
    | inl m ↦
        rw (e, m)
          (make_parents-files os (front ++ c ∷ []) rest ((make_directory os front disk).1)
            ∙ make_directory-files os front disk)
    | inr m ↦ rw (e, m) (make_directory-files os front disk)
  ]
  | inr e ↦ rw e (make_parents-files os (front ++ c ∷ []) rest disk)
]

make_parents-true :
    (os : Os) (front rest : List ℕ) (disk : Disk)
    → Permits os
    → (make_parents os front rest disk).0 ≡ true
unfolding make_parents
make_parents-true os front [] disk h = make_directory-true os front disk h
make_parents-true os front (c ∷ rest) disk h = elim (Bool-cases (c == b'/')) [
  | inl e ↦
      rw (e, make_directory-true os front disk h)
        (make_parents-true os (front ++ c ∷ []) rest ((make_directory os front disk).1) h)
  | inr e ↦ rw e (make_parents-true os (front ++ c ∷ []) rest disk h)
]

-- `create_directory` leaves the files alone.
pub data Made (os : Os) (path : List ℕ) (disk : Disk) : Option (Bool × Disk) → Type 0 where
  made :
      (b : Bool) (d : Disk)
      → d.files ≡ disk.files
      → (Permits os → b ≡ true)
      → Made os path disk (some (b, d))
  no_path : path ≡ [] → Made os path disk none

from_second-files :
    (os : Os) (path : List ℕ) (disk : Disk) → (from_second os path disk).1.files ≡ disk.files
from_second-files os [] disk = make_directory-files os [] disk
from_second-files os (c ∷ p) disk = make_parents-files os (c ∷ []) p disk

from_second-true :
    (os : Os) (path : List ℕ) (disk : Disk) → Permits os → (from_second os path disk).0 ≡ true
from_second-true os [] disk h = make_directory-true os [] disk h
from_second-true os (c ∷ p) disk h = make_parents-true os (c ∷ []) p disk h

pub create_directory-Made :
    (os : Os) (path : List ℕ) (disk : Disk) → Made os path disk (create_directory os path disk)
unfolding create_directory
create_directory-Made os [] disk = elim (Bool-cases (file_exists disk [])) [
  | inl e ↦ rw e (made true disk refl (λ h. refl))
  | inr e ↦ rw e (no_path refl)
]
create_directory-Made os (c ∷ p) disk = elim (Bool-cases (file_exists disk (c ∷ p))) [
  | inl e ↦ rw e (made true disk refl (λ h. refl))
  | inr e ↦ rw e (
      made ((from_second os (strip_slash (take 1023 (c ∷ p))) disk).0)
        ((from_second os (strip_slash (take 1023 (c ∷ p))) disk).1)
        (from_second-files os (strip_slash (take 1023 (c ∷ p))) disk)
        (from_second-true os (strip_slash (take 1023 (c ∷ p))) disk))
]
