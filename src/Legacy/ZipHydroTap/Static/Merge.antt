-- ===== src/Legacy/ZipHydroTap/Static/Merge.antt =====
-- The loop of staticPayloadDecoder over the entries and the device's tags.
use module_core_loraraw.Prelude.{
  ◌≡◌, refl, ap, ◌∙◌, sym, false, List, [], ◌∷◌, ◌++◌, map, All, append_assoc, append-nil,
}
use module_core_loraraw.Prelude.Text.{text_eq}
use module_core_loraraw.Legacy.ZipHydroTap.Static.{MetaTag, replace, merge_tags}

-- A tag with the values of all entries of its key, the last one's in the end.
abbrev pub refresh : List MetaTag → MetaTag → MetaTag
refresh [] tag = tag
refresh (entry ∷ entries) tag = refresh entries (replace entry tag)

-- No entry has the key of an earlier one, as in a Go map.
abbrev pub HaveDistinctKeys : List MetaTag → Type 0
HaveDistinctKeys [] = Unit
HaveDistinctKeys (entry ∷ entries) =
    All (λ later. text_eq later.key entry.key ≡ false) entries × HaveDistinctKeys entries

refresh-other :
    (entries : List MetaTag) (entry : MetaTag)
    → All (λ later. text_eq later.key entry.key ≡ false) entries
    → refresh entries entry ≡ entry
refresh-other [] entry h = refl
refresh-other (later ∷ entries) entry h =
    let same : replace later entry ≡ entry = rw h.0 refl in
    ap (refresh entries) same ∙ refresh-other entries entry h.1

map-append :
    (f : MetaTag → MetaTag) (xs ys : List MetaTag) → map f (xs ++ ys) ≡ map f xs ++ map f ys
map-append f [] ys = refl
map-append f (x ∷ xs) ys = ap (◌∷◌ (f x)) (map-append f xs ys)

map-map : (f g : MetaTag → MetaTag) (xs : List MetaTag) → map f (map g xs) ≡ map (λ x. f (g x)) xs
map-map f g [] = refl
map-map f g (x ∷ xs) = ap (◌∷◌ (f (g x))) (map-map f g xs)

map-same : (xs : List MetaTag) → map (λ x. x) xs ≡ xs
map-same [] = refl
map-same (x ∷ xs) = ap (◌∷◌ x) (map-same xs)

-- Merging entries of distinct keys keeps every tag of the device in its place, with the entry's value where
-- one has its key, and then appends all the entries, those whose key the device already had among
-- them.
pub merge_tags-refresh :
    (tags entries : List MetaTag)
    → HaveDistinctKeys entries
    → merge_tags tags entries ≡ map (refresh entries) tags ++ entries
unfolding merge_tags
merge_tags-refresh tags [] h = sym (append-nil (map (λ x. x) tags) ∙ map-same tags)
merge_tags-refresh tags (entry ∷ entries) h =
    merge_tags-refresh (map (replace entry) tags ++ entry ∷ []) entries h.1
    ∙ ap (λ (l : List MetaTag). l ++ entries)
        (map-append (refresh entries) (map (replace entry) tags) (entry ∷ []))
    ∙ append_assoc (map (refresh entries) (map (replace entry) tags)) (refresh entries entry ∷ [])
        entries
    ∙ ap (λ (l : List MetaTag). l ++ refresh entries entry ∷ entries)
        (map-map (refresh entries) (replace entry) tags)
    ∙ ap (λ (tag : MetaTag). map (refresh (entry ∷ entries)) tags ++ tag ∷ entries)
        (refresh-other entries entry h.0)
