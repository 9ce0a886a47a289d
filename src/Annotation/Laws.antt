-- ===== src/Annotation/Laws.antt =====
-- What `ExtractNetworks` reads from the two forms of the annotation.
use l2s_m.Base.{
  ℕ, ◌<◌, ◌≤◌, ◌==◌, ◌≡◌, ◌≢◌, refl, ap, ◌∙◌, true, false, List, [], ◌∷◌, ◌++◌, map, Text, is_empty,
  All, arith, append_assoc, append-nil, All-append,
}
use mathlib.Core.List.{map-map}
use l2s_m.Annotation.{
  NetworkAnnotation, Json, split, is_space, space_size, skip_spaces, trim_left, trim_right,
  trim_space, named, add_name, add_names, in_namespace, multus_annotation_to_string,
  extract_networks,
}

-- One entry of a comma-separated list: a name, with white space around it.
pub record Entry : Type 0 where
  pub before : Text
  pub first : ℕ
  pub rest : Text
  pub after : Text

abbrev pub name : Entry → Text
name e = e.first ∷ e.rest

abbrev pub entry_text : Entry → Text
entry_text e = e.before ++ (name e ++ e.after)

abbrev pub IsSpace : ℕ → Type 0
IsSpace c = is_space c ≡ true

-- A byte that may stand in a name: an ASCII character but a comma and white space.
abbrev pub IsPlain : ℕ → Type 0
IsPlain c = (is_space c ≡ false) × (c < 128) × (c ≢ b',')

pub record IsEntry (e : Entry) : Type 0 where
  pub spaces_before : All IsSpace e.before
  pub plain : All IsPlain (name e)
  pub spaces_after : All IsSpace e.after

-- The entries with commas between them.
abbrev pub join : Entry → List Entry → Text
join e [] = entry_text e
join e (f ∷ fs) = entry_text e ++ b',' ∷ join f fs

space_no_comma : (c : ℕ) → is_space c ≡ true → c ≢ b','
unfolding is_space
space_no_comma c h = ground arith

split_end : (t part : Text) → All (λ c. c ≢ b',') t → split b',' part t ≡ (part ++ t) ∷ []
unfolding split
split_end [] part h = rw append-nil
split_end (c ∷ t) part h =
    ground (arith, split_end t (part ++ c ∷ []), append_assoc part (c ∷ []) t)

split_comma :
    (t part s : Text)
    → All (λ c. c ≢ b',') t
    → split b',' part (t ++ b',' ∷ s) ≡ (part ++ t) ∷ split b',' [] s
unfolding split
split_comma [] part s h = rw append-nil
split_comma (c ∷ t) part s h =
    ground (arith, split_comma t (part ++ c ∷ []) s, append_assoc part (c ∷ []) t)

space_size-space : (c : ℕ) (s : Text) → is_space c ≡ true → space_size (c ∷ s) ≡ 1
unfolding space_size
space_size-space c [] h = ground arith
space_size-space c (b ∷ []) h = ground arith
space_size-space c (b ∷ e ∷ s) h = ground arith

not_start : (c k : ℕ) → c < 128 → 128 ≤ k → (c == k) ≡ false
not_start c k h k_high = ground arith

space_size-plain : (c : ℕ) (s : Text) → is_space c ≡ false → c < 128 → space_size (c ∷ s) ≡ 0
unfolding space_size
space_size-plain c [] h a = ground arith
space_size-plain c (b ∷ []) h a = rw (h, not_start c 194 a (omega arith)) refl
space_size-plain c (b ∷ e ∷ s) h a =
    rw
      (
        h,
        not_start c 194 a (omega arith),
        not_start c 225 a (omega arith),
        not_start c 226 a (omega arith),
        not_start c 227 a (omega arith),
      )
      refl

trim_left_spaces : (t s : Text) → All IsSpace t → trim_left (t ++ s) ≡ trim_left s
unfolding trim_left
trim_left_spaces [] s h = refl
trim_left_spaces (c ∷ t) s h =
    rw (space_size-space c (t ++ s) h.0, skip_spaces) (trim_left_spaces t s h.1)

trim_left_plain : (c : ℕ) (s : Text) → is_space c ≡ false → c < 128 → trim_left (c ∷ s) ≡ c ∷ s
unfolding trim_left
trim_left_plain c s h a = rw (space_size-plain c s h a, skip_spaces) refl

trim_left-All : (t : Text) → All IsSpace t → trim_left t ≡ []
unfolding trim_left
trim_left-All [] h = refl
trim_left-All (c ∷ t) h = rw (space_size-space c t h.0, skip_spaces) (trim_left-All t h.1)

trim_right_spaces : (t : Text) → All IsSpace t → trim_right t ≡ []
unfolding trim_right is_empty
trim_right_spaces [] h = refl
trim_right_spaces (c ∷ t) h = rw (trim_left-All (c ∷ t) h) refl

trim_right_plain : (t s : Text) → All IsPlain t → All IsSpace s → trim_right (t ++ s) ≡ t
unfolding trim_right is_empty
trim_right_plain [] s h k = trim_right_spaces s k
trim_right_plain (c ∷ t) s h k =
    rw (trim_left_plain c (t ++ s) h.0.0 h.0.1) (ap (λ x. c ∷ x) (trim_right_plain t s h.1 k))

trim_space-entry_text : (e : Entry) → IsEntry e → trim_space (entry_text e) ≡ name e
unfolding trim_space
trim_space-entry_text e h =
    rw
      (
        trim_left_spaces e.before (name e ++ e.after) h.spaces_before,
        trim_left_plain e.first (e.rest ++ e.after) h.plain.0.0 h.plain.0.1,
      )
      (trim_right_plain (name e) e.after h.plain h.spaces_after)

All-map {ℓ κ} :
    {A : Type ℓ} (P Q : A → Type κ) (xs : List A) → ((a : A) → P a → Q a) → All P xs → All Q xs
All-map P Q [] f h = tt
All-map P Q (x ∷ xs) f h = (f x h.0, All-map P Q xs f h.1)

no_comma : (e : Entry) → IsEntry e → All (λ c. c ≢ b',') (entry_text e)
no_comma e h =
    let spaces = λ (s : Text). All-map IsSpace (λ c. c ≢ b',') s space_no_comma in
    All-append _ e.before (name e ++ e.after) (spaces e.before h.spaces_before) (
      All-append _ (name e) e.after (All-map IsPlain (λ c. c ≢ b',') (name e) (λ c p. p.2) h.plain)
        (spaces e.after h.spaces_after))

split-join :
    (e : Entry) (es : List Entry)
    → IsEntry e
    → All IsEntry es
    → split b',' [] (join e es) ≡ map entry_text (e ∷ es)
split-join e [] h hs = split_end (entry_text e) [] (no_comma e h)
split-join e (f ∷ fs) h hs =
    rw (split_comma (entry_text e) [] (join f fs) (no_comma e h), split-join f fs hs.0 hs.1)

add_name-entry :
    (networks : List NetworkAnnotation) (e : Entry)
    → IsEntry e
    → add_name networks (entry_text e) ≡ networks ++ named (name e) ∷ []
unfolding add_name is_empty
add_name-entry networks e h = rw (trim_space-entry_text e h, add_name)

add_names-entries :
    (networks : List NetworkAnnotation) (es : List Entry)
    → All IsEntry es
    → add_names networks (map entry_text es) ≡ networks ++ map (λ e. named (name e)) es
unfolding add_names
add_names-entries networks [] h = rw append-nil
add_names-entries networks (e ∷ es) h =
    let later = map (λ (f : Entry). named (name f)) es in
    add_names-entries (add_name networks (entry_text e)) es h.1
    ∙ ap (λ (n : List NetworkAnnotation). n ++ later) (add_name-entry networks e h.0)
    ∙ append_assoc networks (named (name e) ∷ []) later

-- From names of ASCII characters without commas and white space, written one after the other
-- with commas between and ASCII white space around them, in a text that is no JSON,
-- ExtractNetworks reads these names in order, in the given namespace.
pub extract_networks-join :
    (json : Json) (e : Entry) (es : List Entry) (namespace : Text)
    → IsEntry e
    → All IsEntry es
    → json.unmarshal (join e es) ≡ ([], false)
    → extract_networks json (join e es) namespace
      ≡ map (λ f. in_namespace namespace (named (name f))) (e ∷ es)
unfolding extract_networks
extract_networks-join json e es namespace h hs plain =
    rw (plain, split-join e es h hs, add_names-entries [] (e ∷ es) (h, hs))
      (map-map (in_namespace namespace) (λ (f : Entry). named (name f)) (e ∷ es))

-- If JSON decodes what it encoded, ExtractNetworks reads back the networks that
-- MultusAnnotationToString wrote, in the given namespace.
pub extract_networks-marshal :
    (json : Json) (networks : List NetworkAnnotation) (namespace : Text)
    → json.unmarshal (json.marshal networks) ≡ (networks, true)
    → extract_networks json (multus_annotation_to_string json networks) namespace
      ≡ map (in_namespace namespace) networks
unfolding extract_networks multus_annotation_to_string
extract_networks-marshal json networks namespace decodes = rw decodes
