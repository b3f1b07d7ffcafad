-- ===== src/Postgres/Canonical.antt =====
-- canonicalHeaders of postgres/store.go, the comparison of two header maps, and what JSON makes of
-- them; the order in which Go sorts strings.
use hookbound.Base.{
  ℕ, zero, suc, ◌-◌, Bool, true, false, ◌&&◌, ◌||◌, none, some, List, [], ◌∷◌, ◌++◌, Text, text_eq,
  ltb, ◌==◌, if◌then◌else◌, all, map, decode_rune,
}
use hookbound.Base.Table.{lookup}
use hookbound.Http.{Header, canonical_key}

-- Go's order of strings.
text_le : Text → Text → Bool
text_le [] t = true
text_le (x ∷ xs) [] = false
text_le (x ∷ xs) (y ∷ ys) = ltb x y || x == y && text_le xs ys

insert_sorted {ℓ} : {A : Type ℓ} → Text × A → List (Text × A) → List (Text × A)
unfolding text_le
insert_sorted e [] = e ∷ []
insert_sorted e (f ∷ h) = if text_le e.0 f.0 then e ∷ f ∷ h else f ∷ insert_sorted e h

-- slices.Sort over the names of a map, and sort.Strings over the names of files.
unfoldable pub sorted_by_name {ℓ} : {A : Type ℓ} → List (Text × A) → List (Text × A)
unfolding insert_sorted
sorted_by_name [] = []
sorted_by_name (e ∷ h) = insert_sorted e (sorted_by_name h)

-- canonical[name] = append(canonical[name], vs...)
append_values : Text → List Text → Header → Header
append_values name vs [] = (name, vs) ∷ []
append_values name vs ((k, ws) ∷ h) =
    if text_eq k name then (k, ws ++ vs) ∷ h else (k, ws) ∷ append_values name vs h

canonical_from : (canonical : Header) → Header → Header
unfolding append_values
canonical_from canonical [] = canonical
canonical_from canonical ((name, vs) ∷ h) =
    canonical_from (append_values (canonical_key name) vs canonical) h

-- canonicalHeaders
unfoldable pub canonical_headers : Header → Header
unfolding sorted_by_name canonical_from
canonical_headers h = canonical_from [] (sorted_by_name h)

texts_eq : List Text → List Text → Bool
texts_eq [] [] = true
texts_eq (s ∷ ss) (t ∷ ts) = text_eq s t && texts_eq ss ts
texts_eq _ _ = false

abbrev included : Header → Header → Bool
included h k = all (λ e. elim (lookup e.0 k) [ none ↦ false | some vs ↦ texts_eq e.1 vs ]) h

-- reflect.DeepEqual of two maps.
unfoldable pub same_headers : Header → Header → Bool
unfolding texts_eq
same_headers h k = included h k && included k h

-- A string through json.Marshal and json.Unmarshal: a byte that begins no rune becomes U+FFFD.
unfoldable pub json_text : (skip : ℕ) → Text → Text
json_text zero [] = []
json_text zero (b ∷ rest) =
    let r = decode_rune b rest in
    if r.0 == 65533 && r.1 == 1
    then 239 ∷ 191 ∷ 189 ∷ json_text zero rest
    else b ∷ json_text (r.1 - 1) rest
json_text (suc skip) [] = []
json_text (suc skip) (b ∷ rest) = b ∷ json_text skip rest

-- The headers as the database gives them back.
unfoldable pub json_headers : Header → Header
unfolding json_text
json_headers h = map (λ e. (json_text 0 e.0, map (json_text 0) e.1)) h
