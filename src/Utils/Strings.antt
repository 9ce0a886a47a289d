-- ===== src/Utils/Strings.antt =====
-- internal/utils/utils.go: `RemoveString`, `GetPortNumberFromNetAttachDef`, `DefaultIfEmpty`.
pub mod Finalizers
pub mod Ports
use l2s_m.Base.{
  ℕ, zero, suc, ◌+◌, Bool, true, false, List, [], ◌∷◌, Option, none, some, if◌then◌else◌, Text,
  codes, text_eq, is_empty, has_prefix, length, drop, Result, ok, err, ◌>>=◌, ◌>>◌, guard, or_err,
  not,
}

unfoldable pub remove_string : List Text → Text → List Text
remove_string [] s = []
remove_string (item ∷ slice) s =
    let rest = remove_string slice s in if text_eq item s then rest else item ∷ rest

-- `slices.Contains`
unfoldable pub contains : List Text → Text → Bool
contains [] s = false
contains (item ∷ slice) s = let rest = contains slice s in if text_eq item s then true else rest

-- `strings.Index`
unfoldable pub index : Text → Text → Option ℕ
index [] key = if has_prefix [] key then some 0 else none
index (c ∷ s) key =
    let rest = index s key in
    if has_prefix (c ∷ s) key then some 0 else elim rest [ none ↦ none | some i ↦ some (suc i) ]

pub data PortError : Type 0 where
  keyword_not_found no_port_number : PortError

abbrev pub veth : Text
veth = codes "veth"

unfoldable pub get_port_number_from_net_attach_def : Text → Result PortError Text
unfolding index is_empty
get_port_number_from_net_attach_def name = do
  i ← or_err (index name veth) keyword_not_found
  let port_number = drop (i + length veth) name
  guard (not (is_empty port_number)) no_port_number
  ok port_number

unfoldable pub default_if_empty : Text → Text → Text
unfolding is_empty
default_if_empty val def = if is_empty val then def else val
