-- ===== src/Resolve/Index/Candidates.antt =====
-- The candidates of a bare name are the models of the list that end in it, in the order of texts.
use llm_proxy_server.Prelude.{
  append_nil, append_assoc, ◌≡◌, refl, ◌∙◌, ap, Bool, false, not, ◌&&◌, List, [], ◌∷◌, ◌++◌, String,
  Dict, lookup, lookup-insert, get_or, str_eq, str_eq_iff, has_char, after_char, if◌then◌else◌,
  String-Keyed, filter, arith, inl, inr, Bool-cases, sym,
}
use llm_proxy_server.Resolve.Index.{
  sort_texts, index_model, index_models, bare_index, bare_model_candidates,
}

-- The model is of some instance, and its name there is this one.
abbrev pub is_bare : String → String → Bool
is_bare name m =
    not (str_eq m "")
    && has_char b'/' m
    && not (str_eq (after_char b'/' m) "")
    && str_eq (after_char b'/' m) name

lookup-index_model :
    (name m : String) (index : Dict String (List String))
    → get_or (lookup name (index_model m index)) []
      ≡ get_or (lookup name index) [] ++ (if is_bare name m then m ∷ [] else [])
unfolding index_model
lookup-index_model name m index =
    let bare = after_char b'/' m in
    let base = get_or (lookup name index) [] in
    let added = lookup-insert bare name (get_or (lookup bare index) [] ++ m ∷ []) index in
    grind (arith, added, append_nil base, str_eq_iff bare name)

lookup-index_models :
    (name : String) (ms : List String) (index : Dict String (List String))
    → get_or (lookup name (index_models ms index)) []
      ≡ get_or (lookup name index) [] ++ filter (is_bare name) ms
unfolding index_models
lookup-index_models name [] index = sym (append_nil (get_or (lookup name index) []))
lookup-index_models name (m ∷ ms) index =
    let rest = lookup-index_models name ms (index_model m index) in
    let base = get_or (lookup name index) [] in
    let added = if is_bare name m then m ∷ [] else [] in
    let tail = filter (is_bare name) ms in
    let joined : added ++ tail ≡ filter (is_bare name) (m ∷ ms) =
      elim (Bool-cases (is_bare name m)) [ inl e ↦ rw e refl | inr e ↦ rw e refl ] in
    rest
    ∙ ap (λ l. l ++ tail) (lookup-index_model name m index)
    ∙ append_assoc base added tail
    ∙ ap (λ l. base ++ l) joined

-- The candidates of a name that is not empty are all the models of the list whose name on their instance
-- is this one, and no others, sorted: the index loses none, whichever instances they are of.
pub bare_model_candidates-filter :
    (ids : List String) (name : String)
    → str_eq name "" ≡ false
    → bare_model_candidates ids name ≡ sort_texts (filter (is_bare name) ids)
unfolding bare_model_candidates bare_index lookup
bare_model_candidates-filter ids name named =
    ground (arith, named) ∙ ap sort_texts (lookup-index_models name ids [])
