-- ===== src/Controller/Networks/Laws.antt =====
-- What `GetL2Networks` returns.
use l2s_m.Base.{
  ◌≡◌, refl, sym, ap, ◌∙◌, List, [], ◌∷◌, ◌++◌, map, append-nil, append_assoc, some, Text, Result,
  ok, err, arith, Bool-cases, Option-cases, inl, inr, text_eq, text_eq_iff,
}
use mathlib.Core.Option.{some-injective}
use mathlib.Core.List.{map-append}
use l2s_m.Base.Dict
use l2s_m.Base.Dict.{Dict, lookup-insert}
use l2s_m.Annotation.{NetworkAnnotation}
use l2s_m.Api.L2Network.{L2Network}
use l2s_m.Cluster.{Cluster, ApiError}
use l2s_m.Controller.Networks.{NetworksError, existing_networks, collect, get_l2networks}

of_ok :
    (a b : List L2Network) → ◌≡◌ {A = Result NetworksError (List L2Network)} (ok a) (ok b) → a ≡ b
of_ok a b e = ap (λ (x : Result NetworksError (List L2Network)). elim x [ ok c ↦ c | err _ ↦ a ]) e

-- Every entry stands under its name.
abbrev Named : Dict L2Network → Type 0
Named d = (k : Text) (n : L2Network) → Dict.lookup k d ≡ some n → n.name ≡ k

insert-Named : (d : Dict L2Network) (n : L2Network) → Named d → Named (Dict.insert n.name n d)
insert-Named d n h k m e = elim (Bool-cases (text_eq n.name k)) [
  | inl q ↦
      let found : some n ≡ some m = sym (rw q at (lookup-insert n.name k n d)) ∙ e in
      ap (λ (x : L2Network). x.name) (sym (some-injective _ _ found)) ∙ (text_eq_iff n.name k).0 q
  | inr q ↦ h k m (sym (rw q at (lookup-insert n.name k n d)) ∙ e)
]

existing_networks-Named :
    (ns : List L2Network) (d : Dict L2Network) → Named d → Named (existing_networks d ns)
unfolding existing_networks
existing_networks-Named [] d h = h
existing_networks-Named (n ∷ ns) d h =
    existing_networks-Named ns (Dict.insert n.name n d) (insert-Named d n h)

-- A result of the loop where the first name is found.
collect-found :
    (d : Dict L2Network) (done : List L2Network) (ns : List NetworkAnnotation)
    (n : NetworkAnnotation) (m : L2Network)
    → Dict.lookup n.name d ≡ some m
    → collect d done (n ∷ ns) ≡ collect d (done ++ m ∷ []) ns
unfolding collect
collect-found d done ns n m q = rw (q, collect) refl

empty-Named : Named []
unfolding Dict.lookup
empty-Named k n e = cc

collect-names :
    (d : Dict L2Network) (done : List L2Network) (ns : List NetworkAnnotation) (r : List L2Network)
    → Named d
    → collect d done ns ≡ ok r
    → map (λ (n : L2Network). n.name) r
      ≡ map (λ (n : L2Network). n.name) done ++ map (λ (n : NetworkAnnotation). n.name) ns
unfolding collect
collect-names d done [] r h e =
    rw append-nil (ap (map (λ (n : L2Network). n.name)) (sym (of_ok done r e)))
collect-names d done (n ∷ ns) r h e = elim (Option-cases (Dict.lookup n.name d)) [
  | inl q ↦ ground (arith, q)
  | inr (m, q) ↦
      let later =
        collect-names d (done ++ m ∷ []) ns r h (sym (collect-found d done ns n m q) ∙ e) in
      later
      ∙ rw
          (
            map-append (λ (x : L2Network). x.name) done (m ∷ []),
            append_assoc (map (λ (x : L2Network). x.name) done) (m.name ∷ [])
                (map (λ (x : NetworkAnnotation). x.name) ns),
            h n.name m q,
          )
          refl
]

-- If GetL2Networks succeeds, the networks that it returns have the names that were asked for, in
-- their order.
pub get_l2networks_names :
    {W : Type 0} (c : Cluster W) (networks : List NetworkAnnotation) (w w' : W) (r : List L2Network)
    → get_l2networks c networks w ≡ (ok r, w')
    → map (λ (n : L2Network). n.name) r ≡ map (λ (n : NetworkAnnotation). n.name) networks
unfolding get_l2networks
get_l2networks_names c networks w w' r e = listed (c.list_networks w).0 refl
  where
    listed :
        (x : Result ApiError (List L2Network))
        → (c.list_networks w).0 ≡ x
        → map (λ (n : L2Network). n.name) r ≡ map (λ (n : NetworkAnnotation). n.name) networks
    listed (err x) q = ground arith
    listed (ok all) q =
        collect-names (existing_networks [] all) [] networks r
          (existing_networks-Named all [] empty-Named) (ground arith)
