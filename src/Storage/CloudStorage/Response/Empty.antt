-- ===== src/Storage/CloudStorage/Response/Empty.antt =====
-- When `dir_empty` of crates/unftp-sbe-gcs/src/response_body.rs holds.
use libunftp.Prelude.{Bytes, ◌≡◌, refl, true, Option, none, some, List, [], ◌∷◌, arith}
use libunftp.Std.FilePath.{ends_with_separator}
use libunftp.Storage.CloudStorage.Response.{Item, ResponseBody, only_directory, empty_of, dir_empty}

-- One directory on the only page, and no prefix.
abbrev pub Alone : Option Bytes → Option (List Bytes) → Option (List Item) → Type 0
Alone token prefixes items =
    (item : Item) × ((items ≡ some (item ∷ []))
      × ((prefixes ≡ none) × ((token ≡ none) × (ends_with_separator item.name ≡ true))))

only_directory-Alone :
    (items : List Item) → only_directory items ≡ true → Alone none none (some items)
unfolding only_directory
only_directory-Alone [] h = ground arith
only_directory-Alone (item ∷ []) h = (item, (refl, (refl, (refl, h))))
only_directory-Alone (item ∷ next ∷ items) h = ground arith

empty_of-Alone :
    (token : Option Bytes) (prefixes : Option (List Bytes)) (items : Option (List Item))
    → empty_of token prefixes items ≡ true
    → Alone token prefixes items
unfolding empty_of
empty_of-Alone (some token) prefixes items h = ground arith
empty_of-Alone none (some ps) items h = ground arith
empty_of-Alone none none none h = ground arith
empty_of-Alone none none (some items) h = only_directory-Alone items h

pub dir_empty-Alone :
    (r : ResponseBody) → dir_empty r ≡ true → Alone r.next_page_token r.prefixes r.items
unfolding dir_empty
dir_empty-Alone r h = empty_of-Alone r.next_page_token r.prefixes r.items h
