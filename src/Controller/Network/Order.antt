-- ===== src/Controller/Network/Order.antt =====
-- The calls of a reconciliation that creates a network, as the whole of its parts.
use l2s_m.Base.{
  ◌≡◌, refl, append_assoc, ◌∙◌, Bool, true, false, sym, ap, List, [], ◌++◌, Option, none, some,
  if◌then◌else◌, arith, ok,
}
use mathlib.Core.Path.{subst}
use l2s_m.Base.Effects.{Act, ◌>>=◌, next, Outcome, returned, panicked, pure}
use l2s_m.Utils.Strings.{contains}
use l2s_m.Api.Meta.{ObjectKey, l2sm_finalizer}
use l2s_m.Api.L2Network.{L2Network, IdsRules}
use l2s_m.Api.Provider.{ProviderSpec}
use l2s_m.Cluster.{Reconciled, ControllerError, done, failed}
use l2s_m.Trace.{Event}
use l2s_m.Trace.Plan.{
  Step, steps, steps-append, Any, Ends, through, stopped, crashed, Runs, Runs-bind, Runs-pure,
}
use l2s_m.Controller.Network.{NetworkDeps}
use l2s_m.Controller.Network.Reconcile.{
  create_in_controller, join_provider, set_up_ids, create_network, reconcile_network,
}
use l2s_m.Controller.Network.Protocol.{traced, Ended}
use l2s_m.Controller.Network.Joined.{KeepsSpec, SpecOf, join_provider-Ends}
use l2s_m.Controller.Network.Mirror.{set_up_ids-Mirroring}
use l2s_m.Controller.Network.Planned.{
  creation_plan, ids_plan, provider_part, ids_part, plan_of, Mirroring-Ends,
}
use l2s_m.Controller.Network.Opened.{Opens, opened, refused, broken_off, create_in_controller-Opens}

module _ {W : Type 0} (d : NetworkDeps W) (keeps : KeepsSpec d)
    (keeps_updated : (n m : L2Network) (w w' : W)
      → d.cluster.update_network n w ≡ (ok m, w')
      → m.spec ≡ n.spec) where
  provider_block : Option ProviderSpec → L2Network → Act (W × List Event) Reconciled L2Network
  provider_block p n = elim p [ none ↦ pure n | some _ ↦ join_provider (traced d) n ]

  enabled_block : Bool → IdsRules → L2Network → Act (W × List Event) Reconciled (Unit {0})
  enabled_block b rules n = if b then set_up_ids (traced d) n rules else pure tt

  ids_block : Option IdsRules → L2Network → Act (W × List Event) Reconciled (Unit {0})
  unfolding enabled_block
  ids_block ids n = elim ids [ none ↦ pure tt | some rules ↦ enabled_block rules.enabled rules n ]

  provider_block-Runs :
      (p : Option ProviderSpec) (n : L2Network)
      → Runs (SpecOf n) (provider_part p) (provider_block p n)
  unfolding provider_block
  provider_block-Runs none n = Runs-pure (SpecOf n) n refl
  provider_block-Runs (some p) n = record { at = join_provider-Ends d keeps n }

  enabled_block-Runs :
      (b : Bool) (rules : IdsRules) (n : L2Network)
      → Runs Any (if b then ids_plan else []) (enabled_block b rules n)
  unfolding enabled_block
  enabled_block-Runs false rules n = Runs-pure Any tt tt
  enabled_block-Runs true rules n = record {
    at = λ w log. let (es, l, p) = set_up_ids-Mirroring d n rules w log in Mirroring-Ends d l p;
  }

  ids_block-Runs :
      (ids : Option IdsRules) (n : L2Network) → Runs Any (ids_part ids) (ids_block ids n)
  unfolding ids_block
  ids_block-Runs none n = Runs-pure Any tt tt
  ids_block-Runs (some rules) n = enabled_block-Runs rules.enabled rules n

  behind_creation :
      (n created : L2Network)
      → created.spec ≡ n.spec
      → Runs Any
          (provider_part n.spec.provider ++ ids_part n.spec.ids)
          (provider_block created.spec.provider created >>= λ m. ids_block m.spec.ids m)
  behind_creation n created e =
      subst
        (λ s.
          Runs Any (provider_part s.provider ++ ids_part s.ids)
            (provider_block created.spec.provider created >>= λ m. ids_block m.spec.ids m))
        e
        (Runs-bind (provider_part created.spec.provider) (ids_part created.spec.ids)
          (provider_block created.spec.provider created) (λ m. ids_block m.spec.ids m)
          (provider_block-Runs created.spec.provider created) (λ m q. ids_of m q))
    where
      ids_of :
          (m : L2Network)
          → m.spec ≡ created.spec
          → Runs Any (ids_part created.spec.ids) (ids_block m.spec.ids m)
      ids_of m q =
          subst (λ s. Runs Any (ids_part s.ids) (ids_block m.spec.ids m)) q
            (ids_block-Runs m.spec.ids m)

  -- What the reconciler does with a network that it has created.
  abbrev behind : L2Network → Act (W × List Event) Reconciled (Unit {0})
  behind m = provider_block m.spec.provider m >>= λ k. ids_block k.spec.ids k

  create_network-behind :
      (n m : L2Network) (w w1 : W) (log l : List Event)
      → create_in_controller (traced d) n (w, log) ≡ (next m, (w1, l))
      → create_network (traced d) n (w, log) ≡ behind m (w1, l)
  unfolding create_network provider_block ids_block enabled_block
  create_network-behind n m w w1 log l e = ground arith

  -- A reconciliation makes all calls of the plan, or it is left behind the creation, or it ends before
  -- with an error or a panic.
  pub data Follows (n : L2Network) (log : List Event)
      : Outcome Reconciled × (W × List Event) → Type 0 where
    followed :
        (w : W) {l : List Event} (es : List Event)
        → steps es ≡ plan_of n
        → l ≡ log ++ es
        → Follows n log (returned done, (w, l))
    left_off :
        (r : Reconciled) (w : W) {l : List Event} (es : List Event) (more rest : List Step)
        → steps es ≡ creation_plan ++ more
        → plan_of n ≡ steps es ++ rest
        → l ≡ log ++ es
        → Follows n log (returned r, (w, l))
    not_created :
        (e : ControllerError) (w : W) {l : List Event} (es : List Event) (rest : List Step)
        → plan_of n ≡ steps es ++ rest
        → l ≡ log ++ es
        → Follows n log (returned (failed e), (w, l))
    crashed_off :
        (w : W) {l : List Event} (es : List Event) (rest : List Step)
        → plan_of n ≡ steps es ++ rest
        → l ≡ log ++ es
        → Follows n log (panicked, (w, l))

  Follows-at :
      {n : L2Network} {log : List Event} {x : Outcome Reconciled × (W × List Event)}
      (y : Outcome Reconciled × (W × List Event))
      → x ≡ y
      → Follows n log y
      → Follows n log x
  Follows-at y e p = rw e p

  abbrev rest_of : L2Network → List Step
  rest_of n = provider_part n.spec.provider ++ ids_part n.spec.ids

  part :
      (n : L2Network) (es fs : List Event) (rest : List Step)
      → steps es ≡ creation_plan
      → rest_of n ≡ steps fs ++ rest
      → plan_of n ≡ steps (es ++ fs) ++ rest
  part n es fs rest s s2 =
      ap (λ z. creation_plan ++ z) s2
      ∙ sym (append_assoc creation_plan (steps fs) rest)
      ∙ ap (λ z. (z ++ steps fs) ++ rest) (sym s)
      ∙ ap (λ z. z ++ rest) (sym (steps-append es fs))

  module _ (key : ObjectKey) (n : L2Network) (w w1 : W) (log : List Event)
      (g : d.cluster.get_network key w ≡ (ok n, w1)) (del : n.deleting ≡ false)
      (fin : contains n.finalizers l2sm_finalizer ≡ false) where
    from_behind :
        (l : List Event) (es : List Event) (y : Ended W (Unit {0}))
        → steps es ≡ creation_plan
        → l ≡ log ++ es
        → create_network (traced d) n (w1, log) ≡ y
        → Ends Any (rest_of n) l y
        → Follows n log (reconcile_network (traced d) key (w, log))
    unfolding reconcile_network
    from_behind l es y s t e (through u w2 {l = l2} fs h s2 t2) =
        Follows-at (returned done, (w2, l2)) (ground arith)
          (followed w2 (es ++ fs)
            (steps-append es fs ∙ ap (λ z. z ++ steps fs) s ∙ ap (λ z. creation_plan ++ z) s2)
            (t2 ∙ ap (λ z. z ++ fs) t ∙ append_assoc log es fs))
    from_behind l es y s t e (stopped r w2 {l = l2} fs rest s2 t2) =
        Follows-at (returned r, (w2, l2)) (ground arith)
          (left_off r w2 (es ++ fs) (steps fs) rest (steps-append es fs ∙ ap (λ z. z ++ steps fs) s)
            (part n es fs rest s s2) (t2 ∙ ap (λ z. z ++ fs) t ∙ append_assoc log es fs))
    from_behind l es y s t e (crashed w2 {l = l2} fs rest s2 t2) =
        Follows-at (panicked, (w2, l2)) (ground arith)
          (crashed_off w2 (es ++ fs) rest (part n es fs rest s s2)
            (t2 ∙ ap (λ z. z ++ fs) t ∙ append_assoc log es fs))

    from_creation :
        (y : Ended W L2Network)
        → create_in_controller (traced d) n (w1, log) ≡ y
        → Opens n log y
        → Follows n log (reconcile_network (traced d) key (w, log))
    unfolding reconcile_network create_network
    from_creation y e (opened m w2 {l} es k s t) =
        from_behind l es (behind m (w2, l)) s t (create_network-behind n m w1 w2 log l e)
          ((behind_creation n m k).at w2 l)
    from_creation y e (refused x w2 {l} es rest s t) =
        Follows-at (returned (failed x), (w2, l)) (ground arith)
          (not_created x w2 es (rest ++ rest_of n)
            (ap (λ z. z ++ rest_of n) s ∙ append_assoc (steps es) rest (rest_of n)) t)
    from_creation y e (broken_off w2 {l} es rest s t) =
        Follows-at (panicked, (w2, l)) (ground arith)
          (crashed_off w2 es (rest ++ rest_of n)
            (ap (λ z. z ++ rest_of n) s ∙ append_assoc (steps es) rest (rest_of n)) t)

  -- For a network that is read, is not being deleted and has no finalizer, where the server
  -- keeps the spec of the networks that it updates: whatever else is answered, Reconcile makes
  -- the calls of a plan in order and returns without an error, or it ends after some of the
  -- first of them, with an error or a panic, or, behind the finalizer, also without an error.
  -- The plan is the creation at the SDN controller, the status and the finalizer; with a
  -- provider the status again, the attachment of a port and the mark on its definition; with
  -- enabled intrusion detection the mirror port, the creation of two objects and the mark on the
  -- definition.
  pub reconcile_network-Follows :
      (key : ObjectKey) (n : L2Network) (w w1 : W) (log : List Event)
      → d.cluster.get_network key w ≡ (ok n, w1)
      → n.deleting ≡ false
      → contains n.finalizers l2sm_finalizer ≡ false
      → Follows n log (reconcile_network (traced d) key (w, log))
  reconcile_network-Follows key n w w1 log g del fin =
      from_creation key n w w1 log g del fin (create_in_controller (traced d) n (w1, log)) refl
        (create_in_controller-Opens d keeps keeps_updated n w1 log)
