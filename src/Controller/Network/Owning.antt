-- ===== src/Controller/Network/Owning.antt =====
-- The loop that creates the objects of the intrusion detection of a network.
use l2s_m.Base.{
  ◌≡◌, ◌∙◌, refl, sym, inl, inr, List, [], ◌∷◌, ◌++◌, append-nil, append_assoc, none, some,
  Option-cases, arith,
}
use l2s_m.Base.Effects.{Flow, next, return, panic}
use l2s_m.Api.L2Network.{L2Network}
use l2s_m.Api.Resources.{Resource}
use l2s_m.Cluster.{Reconciled, done}
use l2s_m.Trace.{Event, created}
use l2s_m.Controller.Network.{NetworkDeps}
use l2s_m.Controller.Network.Reconcile.{create_owned}
use l2s_m.Controller.Network.Protocol.{traced, Ended}

module _ {W : Type 0} (d : NetworkDeps W) (network : L2Network) where
  -- The loop over the resources goes on behind a creation with whatever answer, and ends the
  -- reconciliation at the first resource that gets no owner.
  pub data Owning : List Resource → Flow Reconciled (Unit {0}) → List Event → Type 0 where
    all_owned : Owning [] (next tt) []
    owner_refused :
        (r : Resource) (resources : List Resource)
        → d.cluster.set_controller_reference network.meta r ≡ none
        → Owning (r ∷ resources) (return done) []
    one_created :
        (r owned : Resource) {resources : List Resource} {x : Flow Reconciled (Unit {0})}
        {es : List Event}
        → d.cluster.set_controller_reference network.meta r ≡ some owned
        → Owning resources x es
        → Owning (r ∷ resources) x (created owned ∷ es)

  abbrev pub Owns : List Resource → List Event → Ended W (Unit {0}) → Type 0
  Owns resources log (r, (w', log')) =
      (es : List Event) × (log' ≡ log ++ es) × Owning resources r es

  further :
      (r owned : Resource) (resources : List Resource) (x y : Ended W (Unit {0})) (log : List Event)
      → d.cluster.set_controller_reference network.meta r ≡ some owned
      → Owns resources (log ++ created owned ∷ []) y
      → x ≡ y
      → Owns (r ∷ resources) log x
  further r owned resources x y log q (later, e, p) same = rw same (
    created owned ∷ later,
    e ∙ append_assoc log (created owned ∷ []) later,
    one_created r owned q p,
  )

  refused :
      (r : Resource) (resources : List Resource) (x : Ended W (Unit {0})) (w : W) (log : List Event)
      → d.cluster.set_controller_reference network.meta r ≡ none
      → x ≡ (return done, (w, log))
      → Owns (r ∷ resources) log x
  refused r resources x w log q e = rw e ([], sym (append-nil log), owner_refused r resources q)

  pub Owning-return :
      {resources : List Resource} {r : Reconciled} {es : List Event}
      → Owning resources (return r) es
      → r ≡ done
  Owning-return (owner_refused r resources q) = refl
  Owning-return (one_created r owned q p) = Owning-return p

  pub Owning-panic : {resources : List Resource} {es : List Event} → Owning resources panic es → ⊥
  Owning-panic (one_created r owned q p) = Owning-panic p

  -- The loop creates the resources in the order of the list, each with its owner set.
  pub create_owned-Owning :
      (resources : List Resource) (w : W) (log : List Event)
      → Owns resources log (create_owned (traced d) network resources (w, log))
  unfolding create_owned
  create_owned-Owning [] w log = ([], sym (append-nil log), all_owned)
  create_owned-Owning (r ∷ resources) w log =
      let x = create_owned (traced d) network (r ∷ resources) (w, log) in
      elim (Option-cases (d.cluster.set_controller_reference network.meta r)) [
        | inl q ↦ refused r resources x w log q (ground arith)
        | inr (owned, q) ↦
            let w1 = (d.cluster.create owned w).1 in
            further r owned resources x
              (create_owned (traced d) network resources (w1, log ++ created owned ∷ [])) log q
              (create_owned-Owning resources w1 (log ++ created owned ∷ [])) (ground arith)
      ]
