-- ===== src/Storage/CloudStorage/Pages.antt =====
-- The loop over the pages of a listing in crates/unftp-sbe-gcs/src/lib.rs.
use mathlib.Core.List.{append_assoc, append-nil}
use libunftp.Prelude.{
  ℕ, zero, suc, ◌+◌, ◌≤◌, Bytes, ◌≡◌, refl, sym, ap, ◌∙◌, Option, none, some, List, [], ◌∷◌, ◌++◌,
  length, All, arith,
}
use libunftp.Prelude.Result.{Result, ok}
use libunftp.Storage.{Error}
use libunftp.Storage.CloudStorage.Response.{ResponseBody, ObjectInfo, list}
use libunftp.Storage.CloudStorage.Response.Once.{
  count, count-append, paths, paths-append, names, or_empty, file_count, IsPage, list-count,
}
use libunftp.Storage.CloudStorage.{and_then, list_from, list_pages}

-- The pages that the service gives from a token on, the last of which has no token.
pub data Pages (ask : Option Bytes → Result Error ResponseBody)
    : Option Bytes → List ResponseBody → Type 0 where
  last :
      {token : Option Bytes} (r : ResponseBody)
      → ask token ≡ ok r
      → r.next_page_token ≡ none
      → Pages ask token (r ∷ [])
  more :
      {token : Option Bytes} {rs : List ResponseBody} (r : ResponseBody) (next : Bytes)
      → ask token ≡ ok r
      → r.next_page_token ≡ some next
      → Pages ask (some next) rs
      → Pages ask token (r ∷ rs)

-- The entries of all pages, in their order.
abbrev pub entries : (now : ℕ) → List ResponseBody → List ObjectInfo
entries now [] = []
entries now (r ∷ rs) = list now r ++ entries now rs

-- How often a name is a prefix or a file of the pages.
abbrev pub children : Bytes → List ResponseBody → ℕ
children name [] = 0
children name (r ∷ rs) =
    count name (or_empty r.prefixes) + file_count name (names (or_empty r.items)) + children name rs

entries-children :
    (now : ℕ) (rs : List ResponseBody)
    → All IsPage rs
    → (name : Bytes) → count name (paths (entries now rs)) ≡ children name rs
entries-children now [] h name = refl
entries-children now (r ∷ rs) h name = rw (
  paths-append (list now r) (entries now rs),
  count-append name _ (paths (entries now rs)),
  list-count now r h.0 name,
  entries-children now rs h.1 name,
)

module _ (now : ℕ) (ask : Option Bytes → Result Error ResponseBody) where
  from-pages :
      (fuel : ℕ) {token : Bytes} {rs : List ResponseBody} (dirlist : List ObjectInfo)
      → Pages ask (some token) rs
      → length rs ≤ fuel
      → list_from now ask fuel (some token) dirlist ≡ some (ok (dirlist ++ entries now rs))
  unfolding list_from
  from-pages zero dirlist (last r e t) h = absurd (omega arith)
  from-pages zero dirlist (more r next e t ps) h = absurd (omega arith)
  from-pages (suc fuel) dirlist (last r e t) h =
      rw (e, and_then)
        (ap (λ next. list_from now ask fuel next (dirlist ++ list now r)) t
          ∙ ap (λ l. some (ok (dirlist ++ l))) (sym (append-nil (list now r))))
  from-pages (suc fuel) dirlist (more {rs = rs} r next e t ps) h =
      rw (e, and_then)
        (ap (λ token. list_from now ask fuel token (dirlist ++ list now r)) t
          ∙ from-pages fuel (dirlist ++ list now r) ps (omega arith)
          ∙ ap (λ l. some (ok l)) (append_assoc dirlist (list now r) (entries now rs)))

  -- With fuel for as many rounds as the service has pages, the loop ends with the entries of all pages,
  -- in the order of the pages.
  pub list_pages-pages :
      (fuel : ℕ) {rs : List ResponseBody}
      → Pages ask none rs
      → length rs ≤ fuel
      → list_pages now ask fuel ≡ some (ok (entries now rs))
  unfolding list_pages
  list_pages-pages fuel (last r e t) h =
      rw (e, and_then)
        (ap (λ next. list_from now ask fuel next (list now r)) t
          ∙ ap (λ l. some (ok l)) (sym (append-nil (list now r))))
  list_pages-pages fuel (more {rs = rs} r next e t ps) h =
      rw (e, and_then)
        (ap (λ token. list_from now ask fuel token (list now r)) t
          ∙ from-pages fuel (list now r) ps (omega arith))

  -- Where the pages are as the service documents them (no page names an object or a prefix twice, and
  -- a prefix ends with a slash), the listing shows each name as often as the pages have it as a
  -- prefix or as a file; however the service parts the prefixes and their objects between pages, no
  -- directory is shown for its object.
  pub list_pages-children :
      (fuel : ℕ) {rs : List ResponseBody}
      → Pages ask none rs
      → All IsPage rs
      → length rs ≤ fuel
      → (dirlist : List ObjectInfo) × ((list_pages now ask fuel ≡ some (ok dirlist))
          × ((name : Bytes) → count name (paths dirlist) ≡ children name rs))
  list_pages-children fuel {rs} ps h enough =
      (entries now rs, (list_pages-pages fuel ps enough, entries-children now rs h))
