-- ===== src/Annotation/Tests.antt =====
-- Runs of the annotation's reader.
use l2s_m.Base.{◌≡◌, refl, [], ◌∷◌, List, codes, true, false, arith, has_prefix, if◌then◌else◌}
use l2s_m.Annotation.{
  NetworkAnnotation, Json, named, in_namespace, extract_networks, is_space, trim_space,
}
use l2s_m.Annotation.Laws.{Entry, IsEntry, join, extract_networks-join}

-- A reader that accepts one text.
abbrev one_network : List NetworkAnnotation
one_network =
    record {
      name = codes "overlay-veth1";
      namespace = codes "ns";
      ip_addresses = codes "10.0.0.1/24" ∷ [];
      if_name = codes "net1";
    }
    ∷ []

abbrev one_json : Json
one_json = record {
  marshal = λ n. codes "[one]";
  unmarshal = λ t. if has_prefix t (codes "[") then (one_network, true) else ([], false);
}

abbrev v1 : Entry
v1 = record { before = []; first = b'v'; rest = codes "1"; after = codes " " }

abbrev v2 : Entry
v2 = record { before = codes " "; first = b'v'; rest = codes "2"; after = [] }

v1-IsEntry : IsEntry v1
unfolding is_space
v1-IsEntry = record {
  spaces_before = tt;
  plain = ((refl, omega arith, omega arith), ((refl, omega arith, omega arith), tt));
  spaces_after = (refl, tt);
}

v2-IsEntry : IsEntry v2
unfolding is_space
v2-IsEntry = record {
  spaces_before = (refl, tt);
  plain = ((refl, omega arith, omega arith), ((refl, omega arith, omega arith), tt));
  spaces_after = tt;
}

plain_test : one_json.unmarshal (join v1 (v2 ∷ [])) ≡ ([], false)
unfolding has_prefix
plain_test = refl

extract_networks-join_example :
    extract_networks one_json (codes "v1 , v2") (codes "ns")
    ≡ in_namespace (codes "ns") (named (codes "v1"))
      ∷ in_namespace (codes "ns") (named (codes "v2"))
      ∷ []
extract_networks-join_example =
    extract_networks-join one_json v1 (v2 ∷ []) (codes "ns") v1-IsEntry (v2-IsEntry, tt) plain_test

-- U+00A0 and U+3000 are white space too.
unicode_test :
    trim_space (227 ∷ 128 ∷ 128 ∷ b'v' ∷ 195 ∷ 160 ∷ 32 ∷ 194 ∷ 160 ∷ []) ≡ b'v' ∷ 195 ∷ 160 ∷ []
unfolding trim_space
unicode_test = refl
