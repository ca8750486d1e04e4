-- ===== src/Resolve/Index.antt =====
-- The bare-name index of `ModelCache` in app/cache.py. It is rebuilt whenever the list of models is
-- another one than it was built from, so a read is one of the index of the current list.
pub mod Candidates
use llm_proxy_server.Prelude.{
  ℕ, Bool, true, false, not, ◌&&◌, List, [], ◌∷◌, ◌++◌, String, Dict, lookup, insert, get_or,
  contains, str_eq, text_le, has_char, after_char, if◌then◌else◌, String-Keyed,
}

-- A text that stood before the others goes before those that are equal to it.
unfoldable pub insert_text : String → List String → List String
unfolding text_le
insert_text x [] = x ∷ []
insert_text x (y ∷ ys) =
    let later = insert_text x ys in if text_le x y then x ∷ y ∷ ys else y ∷ later

-- `ids.sort()`
unfoldable pub sort_texts : List String → List String
unfolding insert_text
sort_texts [] = []
sort_texts (x ∷ xs) = insert_text x (sort_texts xs)

-- One turn of the loop of `_ensure_index`.
unfoldable pub index_model : String → Dict String (List String) → Dict String (List String)
unfolding insert lookup has_char after_char
index_model model_id index =
    let bare_name = after_char b'/' model_id in
    if not (str_eq model_id "") && has_char b'/' model_id && not (str_eq bare_name "")
    then insert bare_name (get_or (lookup bare_name index) [] ++ model_id ∷ []) index
    else index

unfoldable pub index_models : List String → Dict String (List String) → Dict String (List String)
unfolding index_model
index_models [] index = index
index_models (m ∷ ms) index = index_models ms (index_model m index)

-- `_bare_index`, before its buckets are sorted.
unfoldable pub bare_index : List String → Dict String (List String)
unfolding index_models
bare_index model_ids = index_models model_ids []

unfoldable pub has_model_id : List String → String → Bool
has_model_id model_ids model_id = not (str_eq model_id "") && contains model_ids model_id

unfoldable pub bare_model_candidates : List String → String → List String
unfolding sort_texts bare_index lookup
bare_model_candidates model_ids bare_name =
    if str_eq bare_name ""
    then []
    else sort_texts (get_or (lookup bare_name (bare_index model_ids)) [])
