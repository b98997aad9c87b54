-- ===== src/MultiProcess/Copied.antt =====
-- What the children of `perform_sync` have copied, in whatever order their steps happen.
use apue_learning.Common.{
  In, Once, ℕ, ◌<◌, ◌≡◌, refl, ◌∙◌, sym, subst, Bool, true, false, List, [], ◌∷◌, ◌++◌, Option,
  none, some, ◌⊎◌, inl, inr, get_elem?, bytes_eq, All,
}
use apue_learning.Rsync.Copy.{parent}
use apue_learning.MultiProcess.{SyncConfig, target_file}
use apue_learning.MultiProcess.Disk.{Disk, Os, content_of, sync_file}
use apue_learning.MultiProcess.Directories.{Permits, Reliable}
use apue_learning.MultiProcess.Sync.{Others, Synced, succeeded, failed, empty_parent, sync-Synced}
use apue_learning.MultiProcess.Run.{System, synced, worker_next, worker_step, run, all_finished}
use apue_learning.MultiProcess.Members.{
  all_left, reported, In-other, In-this, In-split, Once-split, left-split,
}

-- The files of a run of the children: each is listed once and has a content, the targets are told apart
-- by the files they are for, none of them is a file to be copied, and none is directly under an
-- empty path. No directory has the size 0, which would be that of an empty file.
pub record Job (os : Os) (config : SyncConfig) (disk : Disk) (ps : List (List ℕ)) : Type 0 where
  pub once : Once ps
  pub readable : (p : List ℕ) → In p ps → (c : List ℕ) × (content_of p disk.files ≡ some c)
  pub apart : (p q : List ℕ) → In p ps → In q ps → bytes_eq (target_file config p) q ≡ false
  pub told_apart :
      (p q : List ℕ)
      → In p ps
      → In q ps
      → (p ≡ q) ⊎ (bytes_eq (target_file config p) (target_file config q) ≡ false)
  pub has_parent : (p : List ℕ) → In p ps → parent (target_file config p) ≡ some [] → ⊥
  pub sized : (p : List ℕ) → 0 < os.dir_size p

-- A report of a file: one that says that it succeeded is true on a reliable system, and a system that
-- permits everything lets it succeed.
pub record Truthful (os : Os) (config : SyncConfig) (before now : Disk) (r : List ℕ × Bool)
    : Type 0 where
  pub copied :
      Reliable os
      → r.1 ≡ true
      → content_of (target_file config r.0) now.files ≡ content_of r.0 before.files
  pub permitted : Permits os → r.1 ≡ true

-- Every file of the job is either left or reported, once; the job's files are as before.
pub record Kept (os : Os) (config : SyncConfig) (disk : Disk) (ps : List (List ℕ)) (s : System)
    : Type 0 where
  pub once : Once (all_left s.workers)
  pub covered : (p : List ℕ) → In p ps → In p (all_left s.workers) ⊎ In p (reported s.reports)
  pub left : (p : List ℕ) → In p (all_left s.workers) → In p ps × (In p (reported s.reports) → ⊥)
  pub known : (p : List ℕ) → In p (reported s.reports) → In p ps
  pub sources : (p : List ℕ) → In p ps → content_of p s.disk.files ≡ content_of p disk.files
  pub truthful : All (Truthful os config disk s.disk) s.reports

-- A run goes on, and in such a state.
pub data Goes (os : Os) (config : SyncConfig) (disk : Disk) (ps : List (List ℕ))
    : Option System → Type 0 where
  goes : (s : System) → Kept os config disk ps s → Goes os config disk ps (some s)

module _ (os : Os) (config : SyncConfig) (disk : Disk) (ps : List (List ℕ))
    (job : Job os config disk ps) where
  -- The reports stay true when the target of a file that is not among them changes.
  All-Truthful :
      (p : List ℕ) (now d : Disk) (rs : List (List ℕ × Bool))
      → In p ps
      → Others (target_file config p) now d
      → (In p (reported rs) → ⊥)
      → ((q : List ℕ) → In q (reported rs) → In q ps)
      → All (Truthful os config disk now) rs
      → All (Truthful os config disk d) rs
  All-Truthful p now d [] i o n known h = tt
  All-Truthful p now d ((q, b) ∷ rs) i o n known h = (
    record {
      copied = λ l e. elim (job.told_apart p q i (known q (inl refl))) [
        | inl same ↦ absurd (n (inl same))
        | inr differ ↦ o (target_file config q) differ ∙ h.0.copied l e
      ];
      permitted = h.0.permitted;
    },
    All-Truthful p now d rs i o (λ k. n (inr k)) (λ z k. known z (inr k)) h.1,
  )

  -- The state behind a step that has reported `p`.
  Kept-step :
      (who : ℕ) (p : List ℕ) (rest : List (List ℕ)) (s : System) (ok : Bool) (d : Disk)
      → get_elem? s.workers who ≡ some (p ∷ rest)
      → Kept os config disk ps s
      → Others (target_file config p) s.disk d
      → Truthful os config disk d (p, ok)
      → Goes os config disk ps (synced who p rest s (some (ok, d)))
  Kept-step who p rest s ok d g k o t =
      let (a, b, q, r) = left-split s.workers who p rest g in
      let i = k.left p (subst (In p) (sym q) (In-this p a b)) in
      let once = Once-split p a b (subst Once q k.once) in
      goes _ (record {
        once = subst Once (sym r) once.0;
        covered = λ z j. elim (k.covered z j) [
          | inl m ↦ elim (In-split z p a b (subst (In z) q m)) [
            | inl e ↦ inr (inl e)
            | inr n ↦ inl (subst (In z) (sym r) n)
          ]
          | inr m ↦ inr (inr m)
        ];
        left = λ z j.
            let m = subst (In z) r j in
            let was = k.left z (subst (In z) (sym q) (In-other z p a b m)) in
            (
              was.0,
              λ w. elim w [ inl e ↦ once.1 (subst (λ y. In y (a ++ b)) e m) | inr w' ↦ was.1 w' ],
            );
        known = λ z j. elim j [ inl e ↦ subst (λ y. In y ps) (sym e) i.0 | inr j' ↦ k.known z j' ];
        sources = λ z j. o z (job.apart p z i.0 j) ∙ k.sources z j;
        truthful = (t, All-Truthful p s.disk d s.reports i.0 o i.1 k.known k.truthful);
      })

  synced-Goes :
      (who : ℕ) (p c : List ℕ) (rest : List (List ℕ)) (s : System) (r : Option (Bool × Disk))
      → get_elem? s.workers who ≡ some (p ∷ rest)
      → Kept os config disk ps s
      → In p ps
      → content_of p disk.files ≡ some c
      → Synced os (target_file config p) c s.disk r
      → Goes os config disk ps (synced who p rest s r)
  synced-Goes who p c rest s r g k i q (succeeded d qt o) =
      Kept-step who p rest s true d g k o
        (record { copied = λ l e. qt l ∙ sym q; permitted = λ h. refl })
  synced-Goes who p c rest s r g k i q (failed d n o) =
      Kept-step who p rest s false d g k o
        (record { copied = λ l e. absurd cc; permitted = λ h. absurd (n h) })
  synced-Goes who p c rest s r g k i q (empty_parent e) = absurd (job.has_parent p i e)

  next-Goes :
      (who : ℕ) (s : System) (o : Option (List (List ℕ)))
      → get_elem? s.workers who ≡ o
      → Kept os config disk ps s
      → Goes os config disk ps (worker_next os config who s o)
  next-Goes who s none g k = goes s k
  next-Goes who s (some []) g k = goes s k
  next-Goes who s (some (p ∷ rest)) g k =
      let (a, b, q, r) = left-split s.workers who p rest g in
      let i = (k.left p (subst (In p) (sym q) (In-this p a b))).0 in
      let (c, e) = job.readable p i in
      synced-Goes who p c rest s (sync_file os p (target_file config p) s.disk) g k i e
        (sync-Synced os p (target_file config p) c s.disk job.sized (k.sources p i ∙ e))

  more :
      (next : System → Option System) (r : Option System)
      → ((t : System) → Kept os config disk ps t → Goes os config disk ps (next t))
      → Goes os config disk ps r
      → Goes os config disk ps (elim r [ none ↦ none | some t ↦ next t ])
  more next r h (goes t k) = h t k

  run-Goes :
      (order : List ℕ) (s : System)
      → Kept os config disk ps s
      → Goes os config disk ps (run os config order s)
  unfolding run worker_step
  run-Goes [] s k = goes s k
  run-Goes (who ∷ order) s k =
      more (run os config order) (worker_next os config who s (get_elem? s.workers who))
        (λ t k'. run-Goes order t k') (next-Goes who s (get_elem? s.workers who) refl k)

  -- The state in which the children start.
  Kept-start :
      (ws : List (List (List ℕ)))
      → all_left ws ≡ ps
      → Kept os config disk ps (record { disk = disk; workers = ws; reports = [] })
  Kept-start ws q = record {
    once = subst Once (sym q) job.once;
    covered = λ p i. inl (subst (In p) (sym q) i);
    left = λ p i. (subst (In p) q i, λ k. k);
    known = λ p i. absurd i;
    sources = λ p i. refl;
    truthful = tt;
  }

no_left : (ws : List (List (List ℕ))) → all_finished ws ≡ true → all_left ws ≡ []
unfolding all_finished
no_left [] h = refl
no_left ([] ∷ ws) h = no_left ws h
no_left ((p ∷ ps) ∷ ws) h = absurd cc

-- What a run that is over has done for a file.
pub record Done (config : SyncConfig) (before now : Disk) (p : List ℕ) : Type 0 where
  pub target : content_of (target_file config p) now.files ≡ content_of p before.files
  pub source : content_of p now.files ≡ content_of p before.files

-- A run of the children is never undefined, and when all are finished, the reports that say success
-- are true on a reliable system, and on a system that permits everything each file has been copied.
pub data Finishes (os : Os) (config : SyncConfig) (disk : Disk) (ps : List (List ℕ))
    : Option System → Type 0 where
  finishes :
      (s : System)
      → All (Truthful os config disk s.disk) s.reports
      → (all_finished s.workers ≡ true
          → Permits os
          → (p : List ℕ) → In p ps
          → Done config disk s.disk p)
      → Finishes os config disk ps (some s)

report-of :
    (os : Os) (config : SyncConfig) (before now : Disk) (p : List ℕ) (rs : List (List ℕ × Bool))
    → Permits os
    → All (Truthful os config before now) rs
    → In p (reported rs)
    → content_of (target_file config p) now.files ≡ content_of p before.files
report-of os config before now p [] h t i = absurd i
report-of os config before now p ((q, b) ∷ rs) h t (inl e) =
    subst (λ z. content_of (target_file config z) now.files ≡ content_of z before.files) (sym e)
      (t.0.copied h.reliable (t.0.permitted h))
report-of os config before now p ((q, b) ∷ rs) h t (inr i) =
    report-of os config before now p rs h t.1 i

pub run-Finishes :
    (os : Os) (config : SyncConfig) (disk : Disk) (ps : List (List ℕ))
    (workers : List (List (List ℕ))) (order : List ℕ)
    → Job os config disk ps
    → all_left workers ≡ ps
    → Finishes os config disk ps
        (run os config order (record { disk = disk; workers = workers; reports = [] }))
run-Finishes os config disk ps workers order job q =
    finish (run-Goes os config disk ps job order _ (Kept-start os config disk ps job workers q))
  where
    finish : {r : Option System} → Goes os config disk ps r → Finishes os config disk ps r
    finish (goes s k) = finishes s k.truthful (λ f h p i. record {
      target = elim (k.covered p i) [
        | inl j ↦ absurd (subst (In p) (no_left s.workers f) j)
        | inr j ↦ report-of os config disk s.disk p s.reports h k.truthful j
      ];
      source = k.sources p i;
    })
