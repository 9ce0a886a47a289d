-- ===== src/Dns.antt =====
-- internal/dnsinterface: entries of a DNS server for pods, and the server of another domain in the
-- cluster's own DNS. The gRPC call and the config map manager of the l2sm-dns module are parameters.
use l2s_m.Base.{Bool, ◌++◌, Text, codes}
use l2s_m.Env.{Lookup, get_intra_configmap_namespace, get_intra_configmap_name}

pub record DnsClient : Type 0 where
  pub server_address : Text
  pub scope : Text

pub record DnsEntry : Type 0 where
  pub pod_name : Text
  pub ip_address : Text
  pub scope : Text
  pub network : Text

module _ {W : Type 0} where
  -- `send` connects to a server and adds an entry, with success or not.
  unfoldable pub add_dns_entry :
      (Text → DnsEntry → W → Bool × W) → DnsClient → Text → Text → Text → W → Bool × W
  add_dns_entry send client pod_name network_name ip_address = send client.server_address (record {
    pod_name = pod_name;
    ip_address = ip_address;
    scope = client.scope;
    network = network_name;
  })

  -- `add` takes the config map's namespace and name, the domain, and the server's address and port.
  unfoldable pub add_server_to_local_core_dns :
      (Text → Text → Text → Text → Text → W → Bool × W) → Lookup → Text → Text → Text → W → Bool × W
  add_server_to_local_core_dns add lookup_env network_name remote_server_domain remote_server_port =
      add (get_intra_configmap_namespace lookup_env) (get_intra_configmap_name lookup_env)
        (network_name ++ codes ".inter.l2sm") remote_server_domain remote_server_port
