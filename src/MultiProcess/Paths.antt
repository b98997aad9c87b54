-- ===== src/MultiProcess/Paths.antt =====
-- The relative path of a file and its target, in the copier of several processes.
use apue_learning.Common.{
  ℕ, ◌+◌, ◌≤◌, ◌≡◌, refl, ap, ◌∙◌, true, List, [], ◌∷◌, ◌++◌, some, arith, ==_refl, length, take,
  length-append, drop-append, bytes_eq,
}
use apue_learning.Rsync.Paths.{take_le}
use apue_learning.MultiProcess.{
  SyncConfig, strstr, starts_with, relative_at, get_relative_path, target_file,
}

starts_with-append : (p s : List ℕ) → starts_with p (p ++ s) ≡ true
starts_with-append [] s = refl
starts_with-append (c ∷ p) s = rw (==_refl c) (starts_with-append p s)

strstr-append : (p s : List ℕ) → strstr (p ++ s) p ≡ some 0
unfolding strstr
strstr-append [] [] = refl
strstr-append [] (c ∷ s) = refl
strstr-append (c ∷ p) s = rw (==_refl c, starts_with-append p s) refl

-- The target of a file below the source directory is the same path below the target directory, when
-- it fits in the buffer.
pub target_file-append :
    (config : SyncConfig) (name : List ℕ)
    → length config.target_dir + length name ≤ 1023
    → target_file config (config.source_dir ++ name) ≡ config.target_dir ++ name
unfolding target_file get_relative_path
target_file-append config name h =
    ap
      (λ o.
        take 1023
          (config.target_dir ++ relative_at config.source_dir (config.source_dir ++ name) o))
      (strstr-append config.source_dir name)
    ∙ ap (λ r. take 1023 (config.target_dir ++ take 1023 r)) (drop-append config.source_dir name)
    ∙ ap (λ r. take 1023 (config.target_dir ++ r)) (take_le 1023 name (omega arith))
    ∙ take_le 1023 (config.target_dir ++ name) (omega (arith, length-append config.target_dir name))

pub bytes_eq-append : (p a b : List ℕ) → bytes_eq (p ++ a) (p ++ b) ≡ bytes_eq a b
bytes_eq-append [] a b = refl
bytes_eq-append (c ∷ p) a b = rw (==_refl c) (bytes_eq-append p a b)
