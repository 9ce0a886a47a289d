-- ===== src/Controller/Pod/Tests.antt =====
-- Instances on a cluster and an SDN controller that answer always alike.
use l2s_m.Base.{◌≡◌, refl, [], ◌∷◌, List, map, true, ok, codes, text_eq}
use l2s_m.Base.Dict
use l2s_m.Net.Parse.{no_v6}
use l2s_m.Api.L2Network.{L2Network}
use l2s_m.Annotation.{NetworkAnnotation, named}
use l2s_m.Controller.Fixtures.{
  web, source_network, target_network, cluster_of, client, datapath, text_json,
}
use l2s_m.Controller.Networks.{get_l2networks}
use l2s_m.Controller.Networks.Laws.{get_l2networks_names}
use l2s_m.Controller.Pod.{PodDeps, release_pod}
use l2s_m.Controller.Pod.Detaching.{traced}
use l2s_m.Controller.Pod.Released.{Follows, release_pod-Releasing}

abbrev deps : PodDeps (Unit {0})
deps = record {
  cluster = cluster_of [];
  sdn = client;
  json = text_json;
  dp = datapath;
  v6 = no_v6;
  switches_namespace = codes "ns";
  create_event = λ e w. w;
  send_dns_entry = λ s e w. (true, w);
}

release_pod-Releasing_example : Follows deps web tt [] (release_pod (traced deps) web (tt, []))
release_pod-Releasing_example = release_pod-Releasing deps web tt []

abbrev two_names : List NetworkAnnotation
two_names = named (codes "jail") ∷ named (codes "red") ∷ []

networks_test :
    get_l2networks (cluster_of (source_network ∷ target_network ∷ [])) two_names tt
    ≡ (ok (target_network ∷ source_network ∷ []), tt)
unfolding get_l2networks Dict.lookup Dict.insert text_eq named
networks_test = refl

get_l2networks_names_example :
    map (λ (n : L2Network). n.name) (target_network ∷ source_network ∷ [])
    ≡ map (λ (n : NetworkAnnotation). n.name) two_names
get_l2networks_names_example =
    get_l2networks_names (cluster_of (source_network ∷ target_network ∷ [])) two_names tt tt
      (target_network ∷ source_network ∷ []) networks_test
