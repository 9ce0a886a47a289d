-- ===== src/SwitchFiles.antt =====
-- The configuration files of the switches: the types of the l2sm-switch module (its package api/v1) with
-- the fields that the program fills in, and their printing as JSON, which is a parameter.
use l2s_m.Base.{List, Option, Text}
use l2s_m.Base.Int.{ℤ}

pub record SwitchNode : Type 0 where
  pub name : Text
  pub node_ip : Text
  pub neighbor_nodes : List Text

pub record SwitchLink : Type 0 where
  pub endpoint_node_a : Text
  pub endpoint_node_b : Text

pub record SwitchTopology : Type 0 where
  pub nodes : List SwitchNode
  pub links : List SwitchLink

pub record Settings : Type 0 where
  pub controller_ip : List Text
  pub controller_port : Text
  pub node_name : Text
  pub switch_name : Text
  pub interfaces_number : ℤ
  pub provider_name : Text

-- `json.Marshal`; `none` is its error.
pub record SwitchFiles : Type 0 where
  pub marshal_topology : SwitchTopology → Option Text
  pub marshal_settings : Settings → Option Text
  pub marshal_node : SwitchNode → Option Text
