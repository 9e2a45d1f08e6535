-- ===== src/FileLogger/Retention.antt =====
-- FileLogger.hpp: what the retention of rotated files removes.
use log_it_cpp.Base.{
  ℕ, zero, suc, ◌-◌, ◌≡◌, ◌≢◌, refl, sym, ap, ◌∙◌, Bool, true, false, not, ◌&&◌, List, [], ◌∷◌, leb,
  if_elim, length, take, All,
}
use log_it_cpp.Base.Ints.{ℤ}
use log_it_cpp.Base.Store.{◌=?◌, =?_refl, find, remove, keys}
use log_it_cpp.Files.{FileName, Files, name_eq, date_eq}
use log_it_cpp.Files.Laws.{find-remove_other}
use log_it_cpp.FileLogger.{
  log_name, earlier, insert_sorted, sort_files, rotated_files, remove_all,
  enforce_rotation_retention,
}

module _ (P : FileName → Type 0) where
  insert-All : (a : FileName) (ns : List FileName) → P a → All P ns → All P (insert_sorted a ns)
  unfolding insert_sorted
  insert-All a [] p ps = (p, tt)
  insert-All a (b ∷ ns) p ps =
      if_elim (All P) (earlier b a) (b ∷ insert_sorted a ns) (a ∷ b ∷ ns)
        (λ h. (ps.0, insert-All a ns p ps.1)) (λ h. (p, ps))

  pub sort-All : (ns : List FileName) → All P ns → All P (sort_files ns)
  unfolding sort_files
  sort-All [] ps = tt
  sort-All (a ∷ ns) ps = insert-All a (sort_files ns) ps.0 (sort-All ns ps.1)

  take-All : (k : ℕ) (ns : List FileName) → All P ns → All P (take k ns)
  take-All zero ns ps = tt
  take-All (suc k) [] ps = tt
  take-All (suc k) (a ∷ ns) ps = (ps.0, take-All k ns ps.1)

not_current :
    (base : ℤ) (n : FileName) (d : Bool)
    → (d && not (n =? log_name base)) ≡ true
    → n ≢ log_name base
not_current base n true h e = cc (h, ap (λ x. x =? log_name base) e, =?_refl (log_name base))
not_current base n false h e = cc

rotated-All : (base : ℤ) (ns : List FileName) → All (λ n. n ≢ log_name base) (rotated_files base ns)
unfolding rotated_files
rotated-All base [] = tt
rotated-All base (n ∷ ns) =
    if_elim (All (λ n. n ≢ log_name base)) (date_eq n.date base && not (n =? log_name base))
      (n ∷ rotated_files base ns) (rotated_files base ns)
      (λ h. (not_current base n (date_eq n.date base) h, rotated-All base ns))
      (λ h. rotated-All base ns)

pub find-remove_all :
    (m : FileName) (ns : List FileName) (files : Files)
    → All (λ n. n ≢ m) ns
    → find m (remove_all ns files) ≡ find m files
unfolding remove_all
find-remove_all m [] files h = refl
find-remove_all m (n ∷ ns) files h =
    find-remove_all m ns (remove n files) h.1 ∙ find-remove_other n m files (λ e. h.0 (sym e))

-- The current file stays.
pub retention_keeps_current :
    (base : ℤ) (max_files : ℕ) (files : Files)
    → find (log_name base) (enforce_rotation_retention base max_files files)
      ≡ find (log_name base) files
unfolding enforce_rotation_retention
retention_keeps_current base max_files files =
    let rotated = rotated_files base (keys files) in
    if_elim (λ u. find (log_name base) u ≡ find (log_name base) files)
      (leb (length rotated) max_files) files
      (remove_all (take (length rotated - max_files) (sort_files rotated)) files) (λ h. refl)
      (λ h. find-remove_all (log_name base) _ files (
        take-All (λ n. n ≢ log_name base) (length rotated - max_files) (sort_files rotated)
          (sort-All (λ n. n ≢ log_name base) rotated (rotated-All base (keys files)))))
