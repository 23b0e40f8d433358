-- ===== src/Storage/Filesystem/Resuming.antt =====
-- What is stored can be read again, and an upload can be resumed where its first part ended.
use libunftp.Prelude.{
  ℕ, zero, suc, ◌+◌, ◌-◌, Bytes, ◌≡◌, refl, ap, ◌∙◌, true, false, Option, none, some, [], ◌∷◌, ◌++◌,
  length, take, drop, arith, bytes_eq, bytes_eq_refl, eq_of_bytes_eq, ◌↔◌,
}
use mathlib.Core.List.{append-nil}
use libunftp.Prelude.Result.{ok}
use libunftp.Storage.{IoError}
use libunftp.Std.HashMap
use libunftp.Std.FilePath.{FilePath}
use libunftp.Storage.Filesystem.{
  strip_prefixes, zeros, set_len, write_at, contents, Files, Dir, opened, allowed, get, put, sought,
  store, copied, write_from, resized, created,
}

take_all : (xs : Bytes) → take (length xs) xs ≡ xs
take_all [] = refl
take_all (x ∷ xs) = ap (λ ys. x ∷ ys) (take_all xs)

abbrev no_bytes : Bytes
no_bytes = []

drop_none : (n : ℕ) → drop n [] ≡ no_bytes
drop_none zero = refl
drop_none (suc n) = refl

drop_all : (xs : Bytes) (n m : ℕ) → m ≡ length xs + n → drop m xs ≡ []
drop_all [] n m e = drop_none m
drop_all (x ∷ xs) n zero e = absurd (omega arith)
drop_all (x ∷ xs) n (suc m) e = drop_all xs n m (omega arith)

drop_first : (xs ys : Bytes) → drop (length xs) (xs ++ ys) ≡ ys
drop_first [] ys = refl
drop_first (x ∷ xs) ys = drop_first xs ys

no_zeros : (n : ℕ) → n ≡ 0 → zeros n ≡ []
unfolding zeros
no_zeros zero e = refl
no_zeros (suc n) e = absurd (omega arith)

set_len_all : (c : Bytes) → set_len (length c) c ≡ c
unfolding set_len
set_len_all c = rw (take_all c, no_zeros (length c - length c) (omega arith)) (append-nil c)

write_at_end : (c b : Bytes) → write_at (length c) b c ≡ c ++ b
unfolding write_at
write_at_end c b =
    rw (take_all c, drop_all c (length b) (length c + length b) refl, append-nil b) refl

-- At the end of the file, the parts are joined; at its start, it is replaced.
resume : (c b : Bytes) → write_at (length c) b (set_len (length c) c) ≡ c ++ b
resume c b = rw (set_len_all c) (write_at_end c b)

replace : (before a : Bytes) → write_at 0 a (set_len 0 before) ≡ a
unfolding set_len write_at
replace before a =
    rw (no_zeros (0 - length before) (omega arith), drop_none (0 + length a), append-nil a) refl

bytes_eq_iff : (a b : Bytes) → (bytes_eq a b ≡ true) ↔ (a ≡ b)
bytes_eq_iff a b = (eq_of_bytes_eq a b, λ e. rw e (bytes_eq_refl b))

get-insert-same :
    (p : FilePath) (c : Bytes) (files : Files)
    → HashMap.get bytes_eq p (HashMap.insert bytes_eq p c files) ≡ some c
get-insert-same p c files =
    HashMap.get-insert bytes_eq bytes_eq_iff p p c files ∙ rw (bytes_eq_refl p) refl

module _ (os : Dir) where
  -- Neither the opening of the path nor what follows it fails.
  pub record Works (path : FilePath) : Type 0 where
    pub reads : os.refuses (strip_prefixes path) ≡ none
    pub writes : os.refuses_write (strip_prefixes path) ≡ none
    pub resizes : (len : ℕ) → os.set_len_fails (strip_prefixes path) len ≡ none
    pub seeks : (pos : ℕ) → os.seek_fails (strip_prefixes path) pos ≡ none
    pub copies : (bytes : Bytes) → os.copy_fails (strip_prefixes path) bytes ≡ none

  abbrev pub file_at : FilePath → Bytes
  file_at path = os.file_of (strip_prefixes path)

  -- What is read of each other file stays the same.
  abbrev pub Spares : Files → FilePath → Files → Type 0
  Spares before path after =
      (other : FilePath)
      → bytes_eq (file_at path) (file_at other) ≡ false
      → (start_pos : ℕ) → get os after other start_pos ≡ get os before other start_pos

  store-Spares :
      (files : Files) (path : FilePath) (content : Bytes)
      → Spares files path (store os (file_at path) content files)
  unfolding get store
  store-Spares files path content other differ start_pos =
      rw
        (
          HashMap.get-insert bytes_eq bytes_eq_iff (file_at path) (file_at other) content files,
          differ,
        )
        refl

  copied-Spares :
      (files : Files) (path : FilePath) (content : Bytes) (start_pos : ℕ) (bytes : Bytes)
      (fails : Option (ℕ × IoError))
      → Spares files path (copied os (file_at path) content start_pos bytes fails files).0
  unfolding copied
  copied-Spares files path content start_pos bytes none = store-Spares files path _
  copied-Spares files path content start_pos bytes (some (n, e)) = store-Spares files path _

  write_from-Spares :
      (files : Files) (path : FilePath) (content : Bytes) (start_pos : ℕ) (bytes : Bytes)
      (fails : Option IoError)
      → Spares files path
          (write_from os (strip_prefixes path) (file_at path) content start_pos bytes fails files).0
  unfolding write_from
  write_from-Spares files path content start_pos bytes none =
      copied-Spares files path content start_pos bytes _
  write_from-Spares files path content start_pos bytes (some e) = store-Spares files path _

  resized-Spares :
      (files : Files) (path : FilePath) (content : Bytes) (start_pos : ℕ) (bytes : Bytes)
      (fails : Option IoError)
      → Spares files path
          (resized os (strip_prefixes path) (file_at path) content start_pos bytes fails files).0
  unfolding resized
  resized-Spares files path content start_pos bytes none =
      write_from-Spares files path _ start_pos bytes _
  resized-Spares files path content start_pos bytes (some e) = store-Spares files path _

  created-Spares :
      (files : Files) (path : FilePath) (start_pos : ℕ) (bytes : Bytes) (fails : Option IoError)
      → Spares files path
          (created os (strip_prefixes path) (file_at path) start_pos bytes fails files).0
  unfolding created
  created-Spares files path start_pos bytes none = resized-Spares files path _ start_pos bytes _
  created-Spares files path start_pos bytes (some e) = λ other differ start. refl

  -- Whatever fails.
  put-Spares :
      (files : Files) (path : FilePath) (start_pos : ℕ) (bytes : Bytes)
      → Spares files path (put os files path start_pos bytes).0
  unfolding put
  put-Spares files path start_pos bytes = created-Spares files path start_pos bytes _

  put-Works :
      (files : Files) (path : FilePath) (start_pos : ℕ) (bytes : Bytes)
      → Works path
      → put os files path start_pos bytes ≡ (
        store os
            (file_at path)
            (write_at start_pos bytes
              (set_len start_pos (contents (HashMap.get bytes_eq (file_at path) files))))
            files,
        ok (length bytes),
      )
  unfolding put created resized write_from copied
  put-Works files path start_pos bytes k =
      rw (k.writes, k.resizes start_pos, k.seeks start_pos, k.copies bytes) refl

  get-Works :
      (files : Files) (path : FilePath) (c : Bytes) (start_pos : ℕ)
      → Works path
      → HashMap.get bytes_eq (file_at path) files ≡ some c
      → get os files path start_pos ≡ ok (drop start_pos c)
  unfolding get allowed opened sought
  get-Works files path c zero k holds = rw (k.reads, holds) refl
  get-Works files path c (suc n) k holds = rw (k.reads, holds, k.seeks (suc n)) ground arith

  put-holds :
      (files : Files) (path : FilePath) (start_pos : ℕ) (bytes c : Bytes)
      → Works path
      → write_at start_pos bytes
          (set_len start_pos (contents (HashMap.get bytes_eq (file_at path) files)))
        ≡ c
      → HashMap.get bytes_eq (file_at path) (put os files path start_pos bytes).0 ≡ some c
  unfolding store
  put-holds files path start_pos bytes c k e =
      ap (λ r. HashMap.get bytes_eq (file_at path) (r.0)) (put-Works files path start_pos bytes k)
      ∙ get-insert-same (file_at path) _ files
      ∙ ap some e

  put-counts :
      (files : Files) (path : FilePath) (start_pos : ℕ) (bytes : Bytes)
      → Works path
      → (put os files path start_pos bytes).1 ≡ ok (length bytes)
  put-counts files path start_pos bytes k = ap (λ r. r.1) (put-Works files path start_pos bytes k)

  -- If opening, resizing, seeking and copying do not fail for a path, an upload from the start stores
  -- its bytes in place of what the file held. A second upload from the end of the first one on gives
  -- the file that both parts make up, which is then read whole from its start and as the second part
  -- from its position; each upload counts its bytes. What is read by a path that leads to another file
  -- is the same afterwards.
  pub put-resumed :
      (files : Files) (path : FilePath) (a b : Bytes)
      → Works path
      → let first = (put os files path 0 a).0 in
        let last = (put os first path (length a) b).0 in
        ((put os files path 0 a).1 ≡ ok (length a))
        × (((put os first path (length a) b).1 ≡ ok (length b))
            × ((get os last path 0 ≡ ok (a ++ b))
                × ((get os last path (length a) ≡ ok b) × Spares files path last)))
  unfolding contents
  put-resumed files path a b k =
      let first = (put os files path 0 a).0 in
      let last = (put os first path (length a) b).0 in
      let one = put-holds files path 0 a a k (replace _ a) in
      let both =
        put-holds first path (length a) b (a ++ b) k
          (ap (λ o. write_at (length a) b (set_len (length a) (contents o))) one ∙ resume a b) in
      (
        put-counts files path 0 a k,
        (
          put-counts first path (length a) b k,
          (
            get-Works last path (a ++ b) 0 k both,
            (
              get-Works last path (a ++ b) (length a) k both ∙ ap ok (drop_first a b),
              λ other differ start.
                  put-Spares first path (length a) b other differ start
                  ∙ put-Spares files path 0 a other differ start,
            ),
          ),
        ),
      )
