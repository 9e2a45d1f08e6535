-- ===== src/FileLogger/Newest.antt =====
-- FileLogger.hpp: retention under sequence names, once the number 1 is free again.
use log_it_cpp.Base.{
  ℕ, ◌+◌, ◌-◌, ◌≡◌, ◌≢◌, ◌<◌, refl, sym, ap, ap₂, subst, ◌∙◌, Bool, true, false, not, ◌&&◌, Option,
  none, some, List, [], ◌∷◌, ◌++◌, ltb, leb, if◌then◌else◌, if_elim, arith, length, length-append,
  take, All, append-nil,
}
use log_it_cpp.Base.Ints.{ℤ, pos, negsuc}
use log_it_cpp.Base.Store.{◌=?◌, =?_refl, ne→=?, find, put, remove, retain, keys}
use log_it_cpp.Record.{Bytes}
use log_it_cpp.Files.{indexed, FileName, Files, name_eq, date_eq}
use log_it_cpp.Files.Laws.{find-put_self, find-put_other, find-remove_other, find-remove_self}
use log_it_cpp.Compression.{CompressType, no_compression}
use log_it_cpp.FileLogger.{
  by_sequence, FileLogger, Outside, Outcome, name_of, log_name, current_name, earlier,
  insert_sorted, sort_files, rotated_files, remove_all, enforce_rotation_retention, compress_by,
  compress_rotated, retain_rotated, rotate_current_file,
}
use log_it_cpp.FileLogger.Losses.{moved, finished, rotate-moved, find-moved_other}
use log_it_cpp.FileLogger.Reuse.{numbered_is_not_current, first_sequence_name}

-- A file that is put is listed last when it is new.
keys-put :
    (k : FileName) (v : Bytes) (d : Files) → find k d ≡ none → keys (put k v d) ≡ keys d ++ k ∷ []
unfolding find put
keys-put k v [] h = refl
keys-put k v ((j, w) ∷ d) h =
    if_elim (λ (u : Files). keys u ≡ j ∷ keys d ++ k ∷ []) (j =? k) ((k, v) ∷ d)
      ((j, w) ∷ put k v d) (λ e. cc (h, ap (λ b. if b then some w else find k d) e))
      (λ e. ap (◌∷◌ j) (keys-put k v d (sym (ap (λ b. if b then some w else find k d) e) ∙ h)))

rotated-append :
    (base : ℤ) (ns ms : List FileName)
    → rotated_files base (ns ++ ms) ≡ rotated_files base ns ++ rotated_files base ms
unfolding rotated_files
rotated-append base [] ms = refl
rotated-append base (n ∷ ns) ms = ground (arith, rotated-append base ns ms)

rotated-remove :
    (base : ℤ) (d : Files)
    → rotated_files base (keys (remove (log_name base) d)) ≡ rotated_files base (keys d)
unfolding rotated_files remove retain
rotated-remove base [] = refl
rotated-remove base ((j, w) ∷ d) = ground (arith, rotated-remove base d)

date_eq_refl : (d : ℤ) → date_eq d d ≡ true
date_eq_refl (pos n) = ground arith
date_eq_refl (negsuc n) = ground arith

-- A name that is earlier than all others is sorted to the front.
sort-first :
    (n : FileName) (ns : List FileName)
    → All (λ m. earlier n m ≡ true) ns
    → sort_files (ns ++ n ∷ []) ≡ n ∷ sort_files ns
unfolding sort_files insert_sorted
sort-first n [] h = refl
sort-first n (a ∷ ns) h =
    ap (insert_sorted a) (sort-first n ns h.1)
    ∙ ap (λ b. if b then n ∷ insert_sorted a (sort_files ns) else a ∷ n ∷ sort_files ns) h.0

one_too_many : (k : ℕ) → leb (k + 1) k ≡ false
one_too_many k = ground arith

one_left : (k : ℕ) → k + 1 - k ≡ 1
one_left k = omega arith

positive : {k : ℕ} → 0 < k → ltb 0 k ≡ true
positive p = ground arith

-- With one file too many, the first one goes.
retention-first :
    (base : ℤ) (n : FileName) (ns : List FileName) (files : Files)
    → rotated_files base (keys files) ≡ ns ++ n ∷ []
    → All (λ m. earlier n m ≡ true) ns
    → enforce_rotation_retention base (length ns) files ≡ remove n files
unfolding enforce_rotation_retention remove_all
retention-first base n ns files e h =
    ap
      (λ l.
        if leb (length l) (length ns)
        then files
        else remove_all (take (length l - length ns) (sort_files l)) files)
      e
    ∙ ap
        (λ k.
          if leb k (length ns)
          then files
          else remove_all (take (k - length ns) (sort_files (ns ++ n ∷ []))) files)
        (length-append ns (n ∷ []))
    ∙ ap
        (λ b.
          if b
          then files
          else remove_all (take (length ns + 1 - length ns) (sort_files (ns ++ n ∷ []))) files)
        (one_too_many (length ns))
    ∙ ap (λ k. remove_all (take k (sort_files (ns ++ n ∷ []))) files) (one_left (length ns))
    ∙ ap (λ l. remove_all (take 1 l) files) (sort-first n ns h)

-- After a rotation to a name of the date that is new, it is listed after the others.
rotated-moved :
    (s : FileLogger) (n : FileName) (c : Bytes)
    → find n s.files ≡ none
    → n ≢ current_name s
    → date_eq n.date s.current_date_ts ≡ true
    → rotated_files s.current_date_ts (keys (moved s n c))
      ≡ rotated_files s.current_date_ts (keys s.files) ++ n ∷ []
unfolding rotated_files
rotated-moved s n c h d e =
    let rest = remove (current_name s) s.files in
    ap (rotated_files s.current_date_ts) (
      keys-put (current_name s) [] (put n c rest)
        (find-put_other n (current_name s) c rest d ∙ find-remove_self (current_name s) s.files)
      ∙ ap (λ l. l ++ current_name s ∷ [])
          (keys-put n c rest (find-remove_other (current_name s) n s.files d ∙ h)))
    ∙ rotated-append s.current_date_ts (keys rest ++ n ∷ []) (current_name s ∷ [])
    ∙ ap₂ (◌++◌)
        (rotated-append s.current_date_ts (keys rest) (n ∷ [])
          ∙ ap₂ (◌++◌) (rotated-remove s.current_date_ts s.files)
              (ap₂ (λ a b. if a && not b then n ∷ [] else []) e (ne→=? n (current_name s) d)))
        (ap₂ (λ a b. if a && not b then current_name s ∷ [] else [])
          (date_eq_refl s.current_date_ts) (=?_refl (current_name s)))
    ∙ append-nil _

module _ (pack : CompressType → Bytes → Option Bytes)
    (run_command : Files → FileName → Files × Bool) where
  finished-retained :
      (s : FileLogger) (r : FileName) (files : Files) (ns : List FileName)
      → s.config.compress ≡ no_compression
      → s.config.max_rotated_files ≡ length ns
      → 0 < s.config.max_rotated_files
      → rotated_files s.current_date_ts (keys files) ≡ ns ++ r ∷ []
      → All (λ m. earlier r m ≡ true) ns
      → (finished pack run_command s r files).files ≡ remove r files
  unfolding compress_rotated compress_by retain_rotated
  finished-retained s r files ns nc m p e h =
      let u = record s { files = files; current_file_size = 0; is_open = true } in
      ap (λ t. (retain_rotated (compress_by pack run_command t r u)).files) nc
      ∙ ap
          (λ b.
            (if b
              then record u {
                files =
                    enforce_rotation_retention s.current_date_ts s.config.max_rotated_files files;
              }
              else u).files)
          (positive p)
      ∙ ap (λ k. enforce_rotation_retention s.current_date_ts k files) m
      ∙ retention-first s.current_date_ts r ns files e h

  -- Under sequence names without compression, when the number 1 is free, the files with greater
  -- numbers are as many as may stay, and opening and renaming succeed: a rotation removes the file
  -- it has just rotated, with what was in it, and keeps every older one.
  pub rotate-drops_newest :
      (o : Outside) (s : FileLogger) (c : Bytes)
      → o.opens ≡ true
      → o.renames ≡ true
      → s.config.naming ≡ by_sequence
      → s.config.compress ≡ no_compression
      → find (current_name s) s.files ≡ some c
      → find (name_of s.current_date_ts (indexed 1)) s.files ≡ none
      → s.config.max_rotated_files ≡ length (rotated_files s.current_date_ts (keys s.files))
      → 0 < s.config.max_rotated_files
      → All
          (λ m. earlier (name_of s.current_date_ts (indexed 1)) m ≡ true)
          (rotated_files s.current_date_ts (keys s.files))
      → let first = name_of s.current_date_ts (indexed 1) in
        let u = (rotate_current_file pack run_command o s).0 in
        (find first u.files ≡ none)
        × (find (current_name s) u.files ≡ some [])
        × ((m : FileName) → m ≢ first → m ≢ current_name s → find m u.files ≡ find m s.files)
  rotate-drops_newest o s c h k n nc e f m p a =
      let first = name_of s.current_date_ts (indexed 1) in
      let files = moved s first c in
      let distinct = numbered_is_not_current s.current_date_ts 1 in
      subst
        (λ u.
          (find first u ≡ none)
          × (find (current_name s) u ≡ some [])
          × ((m : FileName) → m ≢ first → m ≢ current_name s → find m u ≡ find m s.files))
        (sym (
          ap (λ (u : Outcome). u.0.files) (rotate-moved pack run_command o s c h k e)
          ∙ ap (λ r. (finished pack run_command s r (moved s r c)).files)
              (first_sequence_name o s n f)
          ∙ finished-retained s first files (rotated_files s.current_date_ts (keys s.files)) nc m p
              (rotated-moved s first c f distinct (date_eq_refl s.current_date_ts)) a))
        (
          find-remove_self first files,
          find-remove_other first (current_name s) files (λ x. distinct (sym x))
              ∙ find-put_self (current_name s) [] _,
          λ x y z. find-remove_other first x files y ∙ find-moved_other s first x c y z,
        )
