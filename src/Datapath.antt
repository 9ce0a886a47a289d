-- ===== src/Datapath.antt =====
-- The names that the l2sm-switch module derives (its package pkg/datapath) and the number of the
-- reserved probe, as an interface: that module is not part of the repository.
use l2s_m.Base.{ℕ, ◌++◌, ◌∷◌, Text, codes}

pub record Datapath : Type 0 where
  -- `GenerateID(GetSwitchName(DatapathParams{node, provider}))`
  pub switch_id : Text → Text → Text
  -- `GetSwitchName(…)`
  pub switch_name : Text → Text → Text
  -- `NewIfId(GetSwitchName(…)).Port(index)` and `.Probe(RESERVED_PROBE_ID)`
  pub port_name : Text → Text → ℕ → Text
  pub probe_name : Text → Text → Text
  pub reserved_probe_id : ℕ

-- `fmt.Sprintf("of:%s/%s", …)`: a port of the switch of a node under a provider
unfoldable pub of_port : Datapath → Text → Text → Text → Text
of_port dp node provider port = codes "of:" ++ (dp.switch_id node provider ++ (b'/' ∷ port))
