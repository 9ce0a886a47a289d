-- ===== src/Utils/Objects.antt =====
-- internal/utils/utils.go: `GenerateHash`, `SpecToJson` and `ChangePortNumber`, which the program does
-- not call. The encoding of objects, SHA-1 and the addresses of Go's net package are parameters.
use l2s_m.Base.{
  ◌≡◌, refl, ℕ, zero, suc, Bool, true, false, [], ◌∷◌, ◌++◌, Option, none, some, Text, codes,
  hex_padded,
}

-- `s.Encode(obj, &b)`: what was written into the buffer, and whether there was no error.
abbrev pub Encode : Type 0 → Type 0
Encode A = A → Text × Bool

-- `hex.EncodeToString(hash[:n])`
unfoldable pub hex_of_first : ℕ → Text → Text
hex_of_first zero hash = []
hex_of_first (suc n) [] = []
hex_of_first (suc n) (b ∷ hash) = hex_padded 2 b ++ hex_of_first n hash

-- `sha1` gives the 20 bytes of the sum.
unfoldable pub generate_hash : {A : Type 0} → Encode A → (Text → Text) → A → Text
unfolding hex_of_first
generate_hash encode sha1 obj =
    let (b, encoded) = encode obj in elim encoded [ true ↦ hex_of_first 5 (sha1 b) | false ↦ [] ]

-- The error is passed over.
unfoldable pub spec_to_json : {A : Type 0} → Encode A → A → Text
spec_to_json encode obj = (encode obj).0

-- `net.SplitHostPort` and `net.JoinHostPort`
pub record HostPort : Type 0 where
  pub split_host_port : Text → Option (Text × Text)
  pub join_host_port : Text → Text → Text

unfoldable pub change_port_number : HostPort → Text → Text → Text
change_port_number net address new_port = elim (net.split_host_port address) [
  | none ↦ address
  | some (host, _) ↦ net.join_host_port host new_port
]

generate_hash_test :
    generate_hash (λ (t : Text). (t, true)) (λ t. 10 ∷ 255 ∷ 0 ∷ 1 ∷ 2 ∷ t) (codes "x")
    ≡ codes "0aff000102"
unfolding generate_hash hex_padded
generate_hash_test = refl

change_port_number_test :
    change_port_number
      (record {
        split_host_port = λ a. some (a, codes "80");
        join_host_port = λ h p. h ++ (codes ":" ++ p);
      })
      (codes "host")
      (codes "443")
    ≡ codes "host:443"
unfolding change_port_number
change_port_number_test = refl
