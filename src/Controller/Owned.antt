-- ===== src/Controller/Owned.antt =====
-- The loop by which the controllers of overlays and network edge devices create what they have built,
-- each object owned by the resource that it is for (`createExternalResources` of both).
use l2s_m.Base.{
  ◌≡◌, refl, sym, ◌∙◌, ◌⊎◌, inl, inr, List, [], ◌∷◌, ◌++◌, append-nil, append_assoc, Option, none,
  some, Option-cases, arith, Text, codes, text_eq, not, ◌||◌, if◌then◌else◌,
}
use l2s_m.Api.Meta.{ObjectMeta}
use l2s_m.Api.Resources.{Resource}
use l2s_m.Cluster.{Cluster, ApiError}
use l2s_m.Trace.{Event, created, noted, noted-append, traced_cluster}

-- The controller of an object, as the object names it.
pub record OwnerReference : Type 0 where
  pub api_version : Text
  pub kind : Text
  pub name : Text

-- `apiGVStr`
abbrev pub api_version_text : Text
api_version_text = codes "l2sm.l2sm.k8s.local/v1"

-- Under which names an object is found by the field index for the owners of a kind.
unfoldable pub owner_index : Text → Option OwnerReference → List Text
owner_index kind none = []
owner_index kind (some owner) =
    if not (text_eq owner.api_version api_version_text) || not (text_eq owner.kind kind)
    then []
    else owner.name ∷ []

pub data CreateError : Type 0 where
  not_owned : Resource → CreateError
  not_created : ApiError → CreateError

module _ {W : Type 0} (c : Cluster W) where
  unfoldable pub create_all : ObjectMeta → List Resource → W → Option CreateError × W
  create_all owner [] w = (none, w)
  create_all owner (r ∷ resources) w = elim (c.set_controller_reference owner r) [
    | none ↦ (some (not_owned r), w)
    | some owned ↦
        let (e, w1) = c.create owned w in
        elim e [ some x ↦ (some (not_created x), w1) | none ↦ create_all owner resources w1 ]
  ]

module _ {W : Type 0} (c : Cluster W) (owner : ObjectMeta) where
  -- The calls of the loop and its result. Without an error every resource has been created, with its
  -- owner and in the order of the list; an error is that of the first resource that was not. The
  -- world is that before the calls.
  pub data Creating : W → List Resource → Option CreateError → List Event → Type 0 where
    all_created : (w : W) → Creating w [] none []
    owner_refused :
        (w : W) (r : Resource) (resources : List Resource)
        → c.set_controller_reference owner r ≡ none
        → Creating w (r ∷ resources) (some (not_owned r)) []
    create_refused :
        (w w1 : W) (r owned : Resource) (resources : List Resource) (e : ApiError)
        → c.set_controller_reference owner r ≡ some owned
        → c.create owned w ≡ (some e, w1)
        → Creating w (r ∷ resources) (some (not_created e)) (created owned ∷ [])
    one_created :
        (w w1 : W) (r owned : Resource) {resources : List Resource} {e : Option CreateError}
        {es : List Event}
        → c.set_controller_reference owner r ≡ some owned
        → c.create owned w ≡ (none, w1)
        → Creating w1 resources e es
        → Creating w (r ∷ resources) e (created owned ∷ es)

  abbrev pub Creates :
      W → List Resource → List Event → Option CreateError × (W × List Event) → Type 0
  Creates w resources log (r, (w', log')) =
      (es : List Event) × (log' ≡ log ++ es) × Creating w resources r es

  leaf :
      {resources : List Resource} {r : Option CreateError} {es : List Event} {v : W}
      (x : Option CreateError × (W × List Event)) (log : List Event) (w : W)
      → Creating v resources r es
      → x ≡ (r, (w, noted log es))
      → Creates v resources log x
  leaf {es = es} x log w p e = rw e (es, noted-append es log, p)

  go_on :
      (w w1 : W) (r owned : Resource) (resources : List Resource)
      (x y : Option CreateError × (W × List Event)) (log : List Event)
      → c.set_controller_reference owner r ≡ some owned
      → c.create owned w ≡ (none, w1)
      → Creates w1 resources (log ++ created owned ∷ []) y
      → x ≡ y
      → Creates w (r ∷ resources) log x
  go_on w w1 r owned resources x y log q a (later, e, p) same = rw same (
    created owned ∷ later,
    e ∙ append_assoc log (created owned ∷ []) later,
    one_created w w1 r owned q a p,
  )

  create_cases :
      (x : Option ApiError × W)
      → ((e : ApiError) × (w : W) × (x ≡ (some e, w))) ⊎ ((w : W) × (x ≡ (none, w)))
  create_cases (some e, w) = inl (e, w, refl)
  create_cases (none, w) = inr (w, refl)

  -- Whatever the server answers, the loop creates the resources one by one in the order of the
  -- list, each with its owner set; it goes on only after the server has created a resource, so
  -- that without an error all were created, and the first one that gets no owner or is not
  -- created ends the loop with its error.
  pub create_all-Creating :
      (resources : List Resource) (w : W) (log : List Event)
      → Creates w resources log (create_all (traced_cluster c) owner resources (w, log))
  unfolding create_all
  create_all-Creating [] w log = ([], sym (append-nil log), all_created w)
  create_all-Creating (r ∷ resources) w log =
      let x = create_all (traced_cluster c) owner (r ∷ resources) (w, log) in
      elim (Option-cases (c.set_controller_reference owner r)) [
        | inl q ↦ leaf x log w (owner_refused w r resources q) (ground arith)
        | inr (owned, q) ↦ elim (create_cases (c.create owned w)) [
          | inl (e, w1, e1) ↦
              leaf x log w1 (create_refused w w1 r owned resources e q e1) (ground arith)
          | inr (w1, e1) ↦
              go_on w w1 r owned resources x
                (create_all (traced_cluster c) owner resources (w1, log ++ created owned ∷ [])) log
                q e1 (create_all-Creating resources w1 (log ++ created owned ∷ [])) (ground arith)
        ]
      ]
