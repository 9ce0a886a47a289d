-- ===== src/Monitoring.antt =====
-- internal/monitoringnetwork: the network over which the switches of an overlay are measured
-- (manager.go) and the choice of the SDN controller (factory.go); `GenerateLPMPorts` of
-- internal/lpminterface.
pub mod Ensured
mod Tests
use l2s_m.Base.{
  length, ◌==◌, [], ◌∷◌, ◌++◌, List, map, Option, none, some, Text, codes, is_empty, decimal,
  Result, ok, err, if◌then◌else◌,
}
use l2s_m.Base.Effects.{
  Act, Outcome, returned, run, ret, deref, call, when_some, return_if, ◌>>=◌, ◌>>◌,
}
use l2s_m.Datapath.{Datapath, of_port}
use l2s_m.Env.{Lookup, get_controller_ip, get_controller_port}
use l2s_m.Utils.Naming.{generate_lpm_network_name}
use l2s_m.Utils.Strings.{default_if_empty}
use l2s_m.Api.Provider.{ProviderSpec}
use l2s_m.Api.L2Network.{vnet}
use l2s_m.Sdn.{SdnError, VnetPayload, Client}
use l2s_m.Sdn.Session.{Http}
use l2s_m.Sdn.Create.{ClientConfig, internal, new_client}

pub data MonitoringError : Type 0 where
  client_nil provider_nil no_domain : MonitoringError
  not_created not_attached not_deleted no_client : SdnError → MonitoringError

-- `GenerateLPMPorts`: the port of the probe on every node's switch
unfoldable pub generate_lpm_ports : Datapath → List Text → Text → List Text
generate_lpm_ports dp nodes overlay_provider =
    map (λ n. of_port dp n overlay_provider (decimal dp.reserved_probe_id)) nodes

-- The payload of a network's creation, and of attaching ports to it.
abbrev pub payload : Text → List Text → VnetPayload
payload network ports = record { network_id = network; port = ports; mirror_port = [] }

-- `http://<address>:<port>/onos`, with the fixed user
unfoldable pub client_config : Text → Text → ClientConfig
client_config address port = record {
  base_url = codes "http://" ++ (address ++ (b':' ∷ (port ++ codes "/onos")));
  username = codes "karaf";
  password = codes "karaf";
}

module _ {W : Type 0} where
  -- `client` is the manager's field, which may be nil.
  unfoldable pub ensure :
      Datapath
      → Option (Client W)
      → Text
      → Text
      → List Text
      → W
      → Outcome (Option MonitoringError) × W
  ensure dp none name provider_name nodes w = (returned (some client_nil), w)
  ensure dp (some c) name provider_name nodes w =
      run
        (do
          let lpm_net_name = generate_lpm_network_name name
          created ← call (c.create_network vnet (payload lpm_net_name []))
          when_some created (λ e. some (not_created e))
          let lpm_ports = generate_lpm_ports dp nodes provider_name
          return_if (length lpm_ports == 0) none
          attached ← call (c.attach_pod_to_network vnet (payload lpm_net_name lpm_ports))
          when_some attached (λ e. some (not_attached e))
          ret none)
        w

  unfoldable pub delete : Option (Client W) → Text → W → Outcome (Option MonitoringError) × W
  delete none name w = (returned (some client_nil), w)
  delete (some c) name w =
      run
        (do
          deleted ← call (c.delete_network vnet (generate_lpm_network_name name))
          when_some deleted (λ e. some (not_deleted e))
          ret none)
        w

  unfoldable pub internal_factory : Http W → Lookup → W → Result SdnError (Client W) × W
  unfolding client_config
  internal_factory http lookup_env =
      new_client http internal
        (client_config (get_controller_ip lookup_env) (get_controller_port lookup_env))

  unfoldable pub with_client :
      Result SdnError (Client W) × W → Result MonitoringError (Client W) × W
  with_client (ok c, w) = (ok c, w)
  with_client (err e, w) = (err (no_client e), w)

  unfoldable pub for_provider :
      Http W → Option ProviderSpec → W → Result MonitoringError (Client W) × W
  unfolding with_client client_config
  for_provider http none w = (err provider_nil, w)
  for_provider http (some provider) w = elim provider.domain [
    | [] ↦ (err no_domain, w)
    | domain ∷ _ ↦
        if is_empty domain
        then (err no_domain, w)
        else with_client (
            new_client http internal
              (client_config domain (default_if_empty provider.sdn_port (codes "30808"))) w)
  ]

-- The interface `ClientFactory`, and `DefaultClientFactory`.
pub record ClientFactory (W : Type 0) : Type 0 where
  pub internal_client_of : W → Result MonitoringError (Client W) × W
  pub for_provider_of : Option ProviderSpec → W → Result MonitoringError (Client W) × W

unfoldable pub default_client_factory : {W : Type 0} → Http W → Lookup → ClientFactory W
unfolding with_client internal_factory
default_client_factory http lookup_env = record {
  internal_client_of = λ w. with_client (internal_factory http lookup_env w);
  for_provider_of = for_provider http;
}

-- `monitoringClientFactory` of both controllers: the factory that was set, or the default one.
unfoldable pub monitoring_client_factory :
    {W : Type 0} → Option (ClientFactory W) → Http W → Lookup → ClientFactory W
unfolding default_client_factory
monitoring_client_factory none http lookup_env = default_client_factory http lookup_env
monitoring_client_factory (some factory) http lookup_env = factory
