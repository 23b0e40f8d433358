-- ===== src/Storage/CloudStorage/Response/Once.antt =====
-- How often a listing of crates/unftp-sbe-gcs/src/response_body.rs shows a name.
use libunftp.Prelude.{
  ℕ, ◌+◌, ◌≤◌, Bytes, ◌≡◌, refl, ap, Bool, true, false, not, ◌&&◌, ◌||◌, Option, none, some, List,
  [], ◌∷◌, ◌++◌, bytes_eq, eq_of_bytes_eq, if◌then◌else◌, arith, Bool-cases, inl, inr,
}
use libunftp.Std.FilePath.{ends_with_separator}
use libunftp.Storage.CloudStorage.Response.{
  Item, ResponseBody, ObjectInfo, contains, any_named, filtered, files, items_of, has_object,
  without_object, prefixes_without_object, list,
}

-- How often a name stands in a list.
abbrev pub count : Bytes → List Bytes → ℕ
count name [] = 0
count name (x ∷ xs) = (if bytes_eq x name then 1 else 0) + count name xs

pub count-append :
    (name : Bytes) (xs ys : List Bytes) → count name (xs ++ ys) ≡ count name xs + count name ys
count-append name [] ys = omega arith
count-append name (x ∷ xs) ys = omega (arith, count-append name xs ys)

abbrev pub paths : List ObjectInfo → List Bytes
paths [] = []
paths (e ∷ es) = e.path ∷ paths es

pub paths-append : (xs ys : List ObjectInfo) → paths (xs ++ ys) ≡ paths xs ++ paths ys
paths-append [] ys = refl
paths-append (x ∷ xs) ys = ap (λ l. x.path ∷ l) (paths-append xs ys)

abbrev pub names : List Item → List Bytes
names [] = []
names (i ∷ is) = i.name ∷ names is

abbrev pub or_empty {ℓ} : {A : Type ℓ} → Option (List A) → List A
or_empty none = []
or_empty (some xs) = xs

-- A name that ends in a slash is that of a directory.
abbrev pub file_count : Bytes → List Bytes → ℕ
file_count name xs = if ends_with_separator name then 0 else count name xs

-- A test on the name of an entry is one on the name that is counted.
here : (P : Bytes → Bool) (x name : Bytes) → bytes_eq x name ≡ true → P x ≡ P name
here P x name e = ap P (eq_of_bytes_eq x name e)

abbrev visible : List Bytes → Bytes → Bool
visible ps name = not (ends_with_separator name) || contains ps name

filtered-count :
    (name : Bytes) (ps : List Bytes) (items : List Item)
    → count name (paths (filtered ps items))
      ≡ (if visible ps name then count name (names items) else 0)
unfolding filtered
filtered-count name ps [] = ground arith
filtered-count name ps (i ∷ is) = elim (Bool-cases (bytes_eq i.name name)) [
  | inl e ↦ ground (arith, here (visible ps) i.name name e, filtered-count name ps is)
  | inr e ↦ ground (arith, e, filtered-count name ps is)
]

files-count :
    (name : Bytes) (items : List Item)
    → count name (paths (files items)) ≡ file_count name (names items)
unfolding files
files-count name [] = ground arith
files-count name (i ∷ is) = elim (Bool-cases (bytes_eq i.name name)) [
  | inl e ↦ ground (arith, here ends_with_separator i.name name e, files-count name is)
  | inr e ↦ ground (arith, e, files-count name is)
]

without_object-count :
    (name : Bytes) (now : ℕ) (items : Option (List Item)) (ps : List Bytes)
    → count name (paths (without_object now items ps))
      ≡ (if has_object items name then 0 else count name ps)
unfolding without_object
without_object-count name now items [] = ground arith
without_object-count name now items (p ∷ ps) = elim (Bool-cases (bytes_eq p name)) [
  | inl e ↦ ground (arith, here (has_object items) p name e, without_object-count name now items ps)
  | inr e ↦ ground (arith, e, without_object-count name now items ps)
]

contains-count :
    (name : Bytes) (ps : List Bytes) → (if contains ps name then 1 else 0) ≤ count name ps
unfolding contains
contains-count name [] = omega arith
contains-count name (p ∷ ps) = ground (arith, contains-count name ps)

not_contains-count : (name : Bytes) (ps : List Bytes) → contains ps name ≡ false → count name ps ≡ 0
unfolding contains
not_contains-count name [] h = refl
not_contains-count name (p ∷ ps) h = ground (arith, not_contains-count name ps)

any_named-count :
    (name : Bytes) (items : List Item)
    → (if any_named name items then 1 else 0) ≤ count name (names items)
unfolding any_named
any_named-count name [] = omega arith
any_named-count name (i ∷ is) = ground (arith, any_named-count name is)

not_named-count :
    (name : Bytes) (items : List Item) → any_named name items ≡ false → count name (names items) ≡ 0
unfolding any_named
not_named-count name [] h = refl
not_named-count name (i ∷ is) h = ground (arith, not_named-count name is)

abbrev pub distinct : List Bytes → Bool
distinct [] = true
distinct (x ∷ xs) = not (contains xs x) && distinct xs

distinct-count : (name : Bytes) (xs : List Bytes) → distinct xs ≡ true → count name xs ≤ 1
distinct-count name [] h = omega arith
distinct-count name (x ∷ xs) h = elim (Bool-cases (bytes_eq x name)) [
  | inl e ↦
      ground
        (arith, here (contains xs) x name e, not_contains-count name xs, distinct-count name xs)
  | inr e ↦ ground (arith, e, distinct-count name xs)
]

abbrev pub all_end : List Bytes → Bool
all_end [] = true
all_end (p ∷ ps) = ends_with_separator p && all_end ps

contains-end :
    (name : Bytes) (ps : List Bytes)
    → all_end ps ≡ true
    → contains ps name ≡ true
    → ends_with_separator name ≡ true
unfolding contains
contains-end name [] h c = ground arith
contains-end name (p ∷ ps) h c = elim (Bool-cases (bytes_eq p name)) [
  | inl e ↦ ground (arith, here ends_with_separator p name e)
  | inr e ↦ ground (arith, e, contains-end name ps)
]

-- What the service documents of a page: it names no object and no prefix twice, and a prefix ends with
-- the delimiter.
pub record IsPage (r : ResponseBody) : Type 0 where
  pub items_once : distinct (names (or_empty r.items)) ≡ true
  pub prefixes_once : distinct (or_empty r.prefixes) ≡ true
  pub prefixes_end : all_end (or_empty r.prefixes) ≡ true

both-count :
    (name : Bytes) (now : ℕ) (items : List Item) (ps : List Bytes)
    → count name (names items) ≤ 1
    → count name ps ≤ 1
    → (contains ps name ≡ true → ends_with_separator name ≡ true)
    → count name (paths (without_object now (some items) ps))
        + count name (paths (filtered ps items))
      ≡ count name ps + file_count name (names items)
unfolding has_object
both-count name now items ps once once' end = ground (
  arith,
  without_object-count name now (some items) ps,
  filtered-count name ps items,
  contains-count name ps,
  not_contains-count name ps,
  any_named-count name items,
  not_named-count name items,
  end,
)

options-count :
    (name : Bytes) (now : ℕ) (items : Option (List Item)) (prefixes : Option (List Bytes))
    → count name (names (or_empty items)) ≤ 1
    → count name (or_empty prefixes) ≤ 1
    → (contains (or_empty prefixes) name ≡ true → ends_with_separator name ≡ true)
    → count name (paths (prefixes_without_object now items prefixes))
        + count name (paths (items_of items prefixes))
      ≡ count name (or_empty prefixes) + file_count name (names (or_empty items))
unfolding prefixes_without_object items_of
options-count name now none none once once' end = ground arith
options-count name now (some items) none once once' end = ground (arith, files-count name items)
options-count name now none (some ps) once once' end =
    ground (arith, without_object-count name now none ps)
options-count name now (some items) (some ps) once once' end =
    both-count name now items ps once once' end

-- A page shows each prefix of it once and each file of it once, and a directory only as a prefix.
pub list-count :
    (now : ℕ) (r : ResponseBody)
    → IsPage r
    → (name : Bytes)
    → count name (paths (list now r))
      ≡ count name (or_empty r.prefixes) + file_count name (names (or_empty r.items))
unfolding list
list-count now r page name =
    rw
      (
        paths-append (prefixes_without_object now r.items r.prefixes) (items_of r.items r.prefixes),
        count-append name _ (paths (items_of r.items r.prefixes)),
      )
      (options-count name now r.items r.prefixes (distinct-count name _ page.items_once)
        (distinct-count name _ page.prefixes_once) (contains-end name _ page.prefixes_end))
