-- ===== src/Utils/Strings/Ports.antt =====
-- The port number that is read from the name `<overlay>-veth<i>` of an attachment definition.
use native.Mathlib.Nat.{zero-add, suc-add}
use l2s_m.Base.{
  ℕ, zero, suc, ◌+◌, ◌≡◌, ◌≢◌, refl, true, false, [], ◌∷◌, ◌++◌, Option, none, some, Text, codes,
  has_prefix, has_prefix-append, ◌-◌, ◌≤◌, is_empty_of_ne, is_empty, length, drop, ok, All, arith,
  decimal, decimal-ne-nil,
}
use l2s_m.Utils.Strings.{index, veth, get_port_number_from_net_attach_def}

-- No prefix that lacks the byte `c` reaches across it.
has_prefix_across :
    (c : ℕ) (s t p : Text) → All (λ b. c ≢ b) p → has_prefix (s ++ c ∷ t) p ≡ has_prefix s p
unfolding has_prefix
has_prefix_across c [] t [] h = refl
has_prefix_across c [] t (b ∷ p) h = ground arith
has_prefix_across c (d ∷ s) t [] h = refl
has_prefix_across c (d ∷ s) t (b ∷ p) h = ground (arith, has_prefix_across c s t p h.1)

abbrev shift : ℕ → Option ℕ → Option ℕ
shift n none = none
shift n (some i) = some (n + i)

dash_first : (t : Text) → has_prefix (b'-' ∷ t) veth ≡ false
unfolding has_prefix
dash_first t = refl

nil_first : has_prefix [] veth ≡ false
unfolding has_prefix
nil_first = refl

index_across :
    (s t : Text)
    → index s veth ≡ none
    → index (s ++ b'-' ∷ t) veth ≡ shift (length s + 1) (index t veth)
unfolding index
index_across [] t h = rw (dash_first t) (ground arith)
index_across (c ∷ s) t h =
    ground (arith, has_prefix_across b'-' (c ∷ s) t veth (omega arith), index_across s t)

index_inside : (s t : Text) (k : ℕ) → index s veth ≡ some k → index (s ++ b'-' ∷ t) veth ≡ some k
unfolding index
index_inside [] t k h = ground (arith, nil_first)
index_inside (c ∷ s) t k h =
    ground (arith, has_prefix_across b'-' (c ∷ s) t veth (omega arith), index_inside s t (k - 1))

drop_past : (s t : Text) (n : ℕ) → drop (length s + n) (s ++ t) ≡ drop n t
drop_past [] t n = rw zero-add
drop_past (c ∷ s) t n = rw suc-add (drop_past s t n)

index_veth : (p : Text) → index (veth ++ p) veth ≡ some 0
unfolding index
index_veth p = rw (has_prefix-append veth p)

has_prefix-length : (s p : Text) → has_prefix s p ≡ true → length p ≤ length s
unfolding has_prefix
has_prefix-length s [] h = omega arith
has_prefix-length [] (b ∷ p) h = cc
has_prefix-length (c ∷ s) (b ∷ p) h = ground (arith, has_prefix-length s p)

index-length : (s : Text) (k : ℕ) → index s veth ≡ some k → k + 4 ≤ length s
unfolding index
index-length [] k h = ground (arith, nil_first)
index-length (c ∷ s) k h = ground (arith, has_prefix-length (c ∷ s) veth, index-length s (k - 1))

drop_within : (s t : Text) (n : ℕ) → n ≤ length s → drop n (s ++ t) ≡ drop n s ++ t
drop_within s t zero h = refl
drop_within [] t (suc n) h = elim h [ ]
drop_within (c ∷ s) t (suc n) h = drop_within s t n (omega arith)

is_empty-append : (s t : Text) (c : ℕ) → is_empty (s ++ c ∷ t) ≡ false
unfolding is_empty
is_empty-append [] t c = refl
is_empty-append (b ∷ s) t c = refl

five : (n : ℕ) → n + 1 + 0 + 4 ≡ n + 5
five n = omega arith

-- From the name of an attachment definition, the overlay name with "-veth" and a number behind
-- it, the number is read back if the overlay name does not hold "veth".
pub get_port_number-decimal :
    (overlay : Text) (i : ℕ)
    → index overlay veth ≡ none
    → get_port_number_from_net_attach_def (overlay ++ (codes "-veth" ++ decimal i)) ≡ ok (decimal i)
unfolding get_port_number_from_net_attach_def
get_port_number-decimal overlay i h =
    rw
      (
        index_across overlay (veth ++ decimal i) h,
        index_veth (decimal i),
        five (length overlay),
        drop_past overlay (codes "-veth" ++ decimal i) 5,
        is_empty_of_ne (decimal i) (decimal-ne-nil i),
      )
      refl

-- If the overlay name holds "veth", all that follows it there is taken for the number.
pub get_port_number_wrong :
    (overlay : Text) (i k : ℕ)
    → index overlay veth ≡ some k
    → get_port_number_from_net_attach_def (overlay ++ (codes "-veth" ++ decimal i))
      ≡ ok (drop (k + 4) overlay ++ (codes "-veth" ++ decimal i))
unfolding get_port_number_from_net_attach_def
get_port_number_wrong overlay i k h =
    rw
      (
        index_inside overlay (veth ++ decimal i) k h,
        drop_within overlay (codes "-veth" ++ decimal i) (k + 4) (index-length overlay k h),
        is_empty-append (drop (k + 4) overlay) (veth ++ decimal i) b'-',
      )
      refl
