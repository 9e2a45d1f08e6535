-- ===== src/Files/Laws.antt =====
-- What the operations on files do to each file.
use log_it_cpp.Base.{◌≡◌, ◌≢◌, refl, sym, ap, ◌∙◌, Option, none, some, [], ◌++◌}
use log_it_cpp.Base.Store.{=?_refl, ne→=?, find, put, remove, find-put, find-remove}
use log_it_cpp.Record.{Bytes}
use log_it_cpp.Files.{
  FileName, Files, name_eq, create_unless, open_append, content_of, append_to, move, rename,
}

pub find-put_self : (n : FileName) (c : Bytes) (files : Files) → find n (put n c files) ≡ some c
find-put_self n c files = rw (find-put n n c files, =?_refl n) refl

pub find-put_other :
    (n m : FileName) (c : Bytes) (files : Files) → n ≢ m → find m (put n c files) ≡ find m files
find-put_other n m c files h = rw (find-put m n c files, ne→=? n m h) refl

pub find-remove_other :
    (n m : FileName) (files : Files) → m ≢ n → find m (remove n files) ≡ find m files
find-remove_other n m files h = rw (find-remove m n files, ne→=? m n h) refl

pub find-remove_self : (n : FileName) (files : Files) → find n (remove n files) ≡ none
find-remove_self n files = rw (find-remove n n files, =?_refl n) refl

pub find-open_append :
    (n : FileName) (files : Files) → find n (open_append files n) ≡ some (content_of (find n files))
unfolding open_append
find-open_append n files = go (find n files) refl
  where
    go :
        (o : Option Bytes)
        → find n files ≡ o
        → find n (create_unless files n o) ≡ some (content_of o)
    go none e = unfold create_unless in find-put_self n [] files
    go (some c) e = unfold create_unless in e

pub find-open_append_other :
    (n m : FileName) (files : Files) → n ≢ m → find m (open_append files n) ≡ find m files
unfolding open_append
find-open_append_other n m files h = go (find n files)
  where
    go : (o : Option Bytes) → find m (create_unless files n o) ≡ find m files
    go none = unfold create_unless in find-put_other n m [] files h
    go (some c) = unfold create_unless in refl

pub find-append_to :
    (n : FileName) (files : Files) (text : Bytes)
    → find n (append_to files n text) ≡ some (content_of (find n files) ++ text)
unfolding append_to
find-append_to n files text = find-put_self n _ files

pub find-append_to_other :
    (n m : FileName) (files : Files) (text : Bytes)
    → n ≢ m
    → find m (append_to files n text) ≡ find m files
unfolding append_to
find-append_to_other n m files text h = find-put_other n m _ files h

-- A rename that finds its file: where the content is afterwards, and every other file.
pub rename_lem :
    (files : Files) (from to : FileName) (c : Bytes)
    → find from files ≡ some c
    → from ≢ to
    → (files' : Files) × (rename files from to ≡ some files')
      × (find to files' ≡ some c)
      × (find from files' ≡ none)
      × ((m : FileName) → m ≢ from → m ≢ to → find m files' ≡ find m files)
unfolding rename move
rename_lem files from to c e h = (
  put to c (remove from files),
  ap (move files from to) e,
  find-put_self to c (remove from files),
  find-put_other to from c (remove from files) (λ p. h (sym p)) ∙ find-remove_self from files,
  λ m f t.
      find-put_other to m c (remove from files) (λ p. t (sym p)) ∙ find-remove_other from m files f,
)

pub rename-none :
    (files : Files) (from to : FileName) → find from files ≡ none → rename files from to ≡ none
unfolding rename move
rename-none files from to e = ap (move files from to) e

pub rename-some :
    (files : Files) (from to : FileName) (c : Bytes)
    → find from files ≡ some c
    → rename files from to ≡ some (put to c (remove from files))
unfolding rename move
rename-some files from to c e = ap (move files from to) e

pub open_append-none :
    (files : Files) (n : FileName) → find n files ≡ none → open_append files n ≡ put n [] files
unfolding open_append create_unless
open_append-none files n e = ap (create_unless files n) e
