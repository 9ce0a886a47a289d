-- ===== src/Sdn/Tests.antt =====
-- An instance on a controller that answers every request by 204.
use l2s_m.Base.{ℕ, ◌+◌, ◌≡◌, ◌↔◌, ◌⊎◌, [], ◌∷◌, some, none, codes}
use l2s_m.Base.Effects.{returned}
use l2s_m.Api.L2Network.{vnet}
use l2s_m.Sdn.{VnetPayload}
use l2s_m.Sdn.Session.{Http, SessionClient, post, delete}
use l2s_m.Sdn.Internal
use l2s_m.Sdn.Laws.{sent, internal_client_ok_iff}

abbrev agreeing : Http ℕ
agreeing = record { send = λ r w. (some 204, w + 1); marshal = λ p. p.network_id; base64 = λ t. t }

abbrev session : SessionClient
session = record { base_url = codes "http://c:8181/onos"; auth_token = codes "karaf" }

abbrev payload : VnetPayload
payload = record { network_id = codes "v1"; port = codes "of:1/2" ∷ []; mirror_port = [] }

internal_client_ok_iff_example :
    ((Internal.create_network agreeing session vnet payload 0 ≡ (returned none, 1))
      ↔ (sent agreeing session post (codes "/vnets/api") (codes "v1") 0 ≡ (some 204, 1)))
    × ((Internal.attach_pod_to_network agreeing session vnet payload 0 ≡ (returned none, 1))
        ↔ (sent agreeing session post (codes "/vnets/api/port") (codes "v1") 0 ≡ (some 204, 1)))
    × ((Internal.set_up_mirror_port agreeing session vnet payload 0 ≡ (returned none, 1)) ↔ (
        sent agreeing session post (codes "/vnets/api/mirror-port") (codes "v1") 0 ≡ (some 204, 1)))
    × ((Internal.detach_pod_from_network agreeing session vnet payload 0 ≡ (returned none, 1)) ↔ (
        (sent agreeing session delete (codes "/vnets/api/port") (codes "v1") 0 ≡ (some 204, 1))
        ⊎ (sent agreeing session delete (codes "/vnets/api/port") (codes "v1") 0 ≡ (some 200, 1))))
internal_client_ok_iff_example = internal_client_ok_iff agreeing session vnet payload 0 1
