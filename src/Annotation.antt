-- ===== src/Annotation.antt =====
-- internal/networkannotation: the annotations that name a pod's networks. `encoding/json` on a list
-- of annotations is a parameter (`Json`).
pub mod Laws
mod Tests
use l2s_m.Base.{
  ℕ, zero, suc, ◌/◌, ◌^◌, ◌%◌, ◌≡◌, Bool, true, false, ◌||◌, not, List, [], ◌∷◌, ◌++◌, map,
  if◌then◌else◌, ◌==◌, leb, ◌&&◌, Text, codes, is_empty, hex_padded,
}

abbrev pub multus_annotation_key : Text
multus_annotation_key = codes "k8s.v1.cni.cncf.io/networks"

abbrev pub net_attach_label_prefix : Text
net_attach_label_prefix = codes "used-"

abbrev pub l2sm_network_annotation : Text
l2sm_network_annotation = codes "l2sm/networks"

pub record NetworkAnnotation : Type 0 where
  pub name : Text
  pub namespace : Text
  pub ip_addresses : List Text
  pub if_name : Text

-- `json.Unmarshal` into a nil slice: what was filled in, also where an error is reported, and
-- whether there was no error. `json.Marshal` of these values does not fail.
pub record Json : Type 0 where
  pub marshal : List NetworkAnnotation → Text
  pub unmarshal : Text → List NetworkAnnotation × Bool

-- `strings.Split` at one byte, the part so far in `part`
unfoldable pub split : ℕ → Text → Text → List Text
split sep part [] = part ∷ []
split sep part (c ∷ s) = elim (c == sep) [
  | true ↦ part ∷ split sep [] s
  | false ↦ split sep (part ++ c ∷ []) s
]

-- The white space of ASCII
unfoldable pub is_space : ℕ → Bool
is_space c = (leb 9 c && leb c 13) || (c == 32)

-- The third byte of the white space from U+2000 to U+202F, behind E2 80.
unfoldable pub is_general_space : ℕ → Bool
is_general_space c = (leb 128 c && leb c 138) || (c == 168) || (c == 169) || (c == 175)

-- The bytes of the white space of Unicode that a text begins with, in UTF-8, or 0: beside ASCII these
-- are U+0085, U+00A0, U+1680, U+2000 to U+200A, U+2028, U+2029, U+202F, U+205F and U+3000.
unfoldable pub space_size : Text → ℕ
unfolding is_space is_general_space
space_size [] = 0
space_size (a ∷ []) = if is_space a then 1 else 0
space_size (a ∷ b ∷ []) =
    if is_space a then 1 else if a == 194 && ((b == 133) || (b == 160)) then 2 else 0
space_size (a ∷ b ∷ c ∷ s) =
    if is_space a
    then 1
    else if a == 194 && ((b == 133) || (b == 160))
    then 2
    else if (a == 225 && b == 154 && c == 128)
        || (a == 226 && b == 128 && is_general_space c)
        || (a == 226 && b == 129 && c == 159)
        || (a == 227 && b == 128 && c == 128)
    then 3
    else 0

-- The text without the white space at its beginning, of which `n` bytes are still to be skipped.
unfoldable pub skip_spaces : ℕ → Text → Text
unfolding space_size
skip_spaces n [] = []
skip_spaces (suc n) (c ∷ s) = skip_spaces n s
skip_spaces zero (c ∷ s) = elim (space_size (c ∷ s)) [ zero ↦ c ∷ s | suc k ↦ skip_spaces k s ]

unfoldable pub trim_left : Text → Text
unfolding skip_spaces
trim_left s = skip_spaces 0 s

-- The text without the longest end of it that is white space.
unfoldable pub trim_right : Text → Text
unfolding trim_left
trim_right [] = []
trim_right (c ∷ s) =
    let rest = trim_right s in if is_empty (trim_left (c ∷ s)) then [] else c ∷ rest

-- `strings.TrimSpace`
unfoldable pub trim_space : Text → Text
unfolding trim_right is_empty
trim_space s = trim_right (trim_left s)

unfoldable pub named : Text → NetworkAnnotation
named name = record { name = name; namespace = []; ip_addresses = []; if_name = [] }

-- One round of the loop over the comma-separated names.
unfoldable pub add_name : List NetworkAnnotation → Text → List NetworkAnnotation
unfolding named
add_name networks name =
    let trimmed = trim_space name in
    if is_empty trimmed then networks else networks ++ named trimmed ∷ []

unfoldable pub add_names : List NetworkAnnotation → List Text → List NetworkAnnotation
add_names networks [] = networks
add_names networks (name ∷ names) = add_names (add_name networks name) names

unfoldable pub in_namespace : Text → NetworkAnnotation → NetworkAnnotation
in_namespace namespace network = record network { namespace = namespace }

module _ (json : Json) where
  unfoldable pub multus_annotation_to_string : List NetworkAnnotation → Text
  multus_annotation_to_string annotations = json.marshal annotations

  -- `ExtractNetworks`; the error it returns is always nil
  unfoldable pub extract_networks : Text → Text → List NetworkAnnotation
  unfolding add_names split in_namespace
  extract_networks annotations namespace =
      let (decoded, valid) = json.unmarshal annotations in
      let networks = if valid then decoded else add_names decoded (split b',' [] annotations) in
      map (in_namespace namespace) networks

-- `GenerateIPv6Address`, for the 64 random bits `interface_id`
unfoldable pub generate_ipv6_address : ℕ → NetworkAnnotation → NetworkAnnotation
unfolding hex_padded
generate_ipv6_address interface_id network =
    let group = λ (n : ℕ). hex_padded 4 (interface_id / 2 ^ n % 2 ^ 16) in
    let address =
      codes "fe80::"
      ++ (group 48
          ++ (b':' ∷ (group 32 ++ (b':' ∷ (group 16 ++ (b':' ∷ (group 0 ++ codes "/64"))))))) in
    record network { ip_addresses = network.ip_addresses ++ address ∷ [] }
