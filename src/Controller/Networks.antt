-- ===== src/Controller/Networks.antt =====
-- `GetL2Networks`, `GetL2NetworksMap`, `GetFreeNetAttachDefs` and `DetachNetAttachDef` of
-- internal/controller/pod_utils.go: the networks and attachment definitions that a pod's annotations
-- name.
pub mod Laws
use l2s_m.Base.{Bool, List, [], ◌∷◌, ◌++◌, Option, none, some, Text, codes, Result, ok, err}
use l2s_m.Base.Dict
use l2s_m.Base.Effects.{Act, fault, pure}
use l2s_m.Base.Dict.{Dict}
use l2s_m.Api.Meta.{NetAttachDef}
use l2s_m.Annotation.{NetworkAnnotation}
use l2s_m.Api.L2Network.{L2Network}
use l2s_m.Cluster.{Cluster, ApiError, ControllerError, api}

abbrev pub set_label : Text → Text → NetAttachDef → NetAttachDef
set_label key value nad = record nad {
  meta = record nad.meta { labels = Dict.insert key value nad.labels };
}

-- `Labels[key] = "true"`; the labels of an object without any are a nil map, and writing there panics.
unfoldable pub mark_taken : {W R : Type 0} → Text → NetAttachDef → Act W R NetAttachDef
mark_taken key nad = elim nad.labels [
  | [] ↦ fault
  | _ ∷ _ ↦ pure (set_label key (codes "true") nad)
]

pub data NetworksError : Type 0 where
  list_failed : ControllerError → NetworksError
  no_network : Text → NetworksError

-- `existingNetworks`: of two networks with one name the later one stays.
unfoldable pub existing_networks : Dict L2Network → List L2Network → Dict L2Network
existing_networks found [] = found
existing_networks found (n ∷ ns) = existing_networks (Dict.insert n.name n found) ns

-- The loop over the requested networks.
unfoldable pub collect :
    Dict L2Network → List L2Network → List NetworkAnnotation → Result NetworksError (List L2Network)
collect existing result [] = ok result
collect existing result (n ∷ ns) = elim (Dict.lookup n.name existing) [
  | none ↦ err (no_network n.name)
  | some network ↦ collect existing (result ++ network ∷ []) ns
]

-- The same loop with a map: what was found before a missing network stays in it.
unfoldable pub collect_map :
    Dict L2Network → Dict L2Network → List NetworkAnnotation → Dict L2Network × Option NetworksError
collect_map existing result [] = (result, none)
collect_map existing result (n ∷ ns) = elim (Dict.lookup n.name existing) [
  | none ↦ (result, some (no_network n.name))
  | some network ↦ collect_map existing (Dict.insert n.name network result) ns
]

module _ {W : Type 0} (c : Cluster W) where
  unfoldable pub get_l2networks :
      List NetworkAnnotation → W → Result NetworksError (List L2Network) × W
  unfolding existing_networks collect
  get_l2networks networks w =
      let (r, w') = c.list_networks w in
      elim r [
        | err e ↦ (err (list_failed (api e)), w')
        | ok all ↦ (collect (existing_networks [] all) [] networks, w')
      ]

  unfoldable pub get_l2networks_map :
      List NetworkAnnotation → W → (Dict L2Network × Option NetworksError) × W
  unfolding existing_networks collect_map
  get_l2networks_map networks w =
      let (r, w') = c.list_networks w in
      elim r [
        | err e ↦ (([], some (list_failed (api e))), w')
        | ok all ↦ (collect_map (existing_networks [] all) [] networks, w')
      ]

  -- `GetFreeNetAttachDefs`; an error leaves the list empty.
  unfoldable pub get_free_net_attach_defs : Text → Text → W → List NetAttachDef × W
  get_free_net_attach_defs switches_namespace label w =
      let (r, w') = c.list_free_net_attach_defs switches_namespace label w in
      (elim r [ ok nads ↦ nads | err _ ↦ [] ], w')

  -- `DetachNetAttachDef`, which the program does not call, with the server's deletion as a parameter.
  unfoldable pub detach_net_attach_def :
      (NetAttachDef → W → Option ApiError × W) → NetworkAnnotation → Text → W → Option ApiError × W
  detach_net_attach_def delete annotation namespace w =
      let (found, w') =
        c.get_net_attach_def (record { name = annotation.name; namespace = namespace }) w in
      elim found [ err e ↦ (some e, w') | ok nad ↦ delete nad w' ]
