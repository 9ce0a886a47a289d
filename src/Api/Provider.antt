-- ===== src/Api/Provider.antt =====
-- api/v1/provider_types.go
use l2s_m.Base.{List, Text}

pub record ProviderSpec : Type 0 where
  pub name : Text
  pub domain : List Text
  pub sdn_port : Text
  pub dns_port : Text
  pub dns_grpc_port : Text
  pub of_port : Text
