-- ===== src/Api/Meta.antt =====
-- Object metadata, pods, nodes and network attachment definitions.
use l2s_m.Base.{ℕ, Bool, List, Text, codes}
use l2s_m.Base.Dict.{Dict}

pub record ObjectMeta : Type 0 where
  pub name : Text
  pub namespace : Text
  pub labels : Dict Text
  pub annotations : Dict Text
  pub finalizers : List Text
  pub deleting : Bool  -- whether the deletion timestamp is set
  pub generation : ℕ

pub record Pod : Type 0 where
  pub meta : ObjectMeta
  pub open meta use *
  pub node_name : Text

pub record NodeAddress : Type 0 where
  pub internal : Bool  -- the type is `InternalIP`
  pub address : Text

pub record Node : Type 0 where
  pub name : Text
  pub labels : Dict Text
  pub addresses : List NodeAddress

pub record NetAttachDef : Type 0 where
  pub meta : ObjectMeta
  pub open meta use *
  pub config : Text

-- The namespaced name of an object.
pub record ObjectKey : Type 0 where
  pub name : Text
  pub namespace : Text

abbrev pub l2sm_finalizer : Text
l2sm_finalizer = codes "l2sm.operator.io/finalizer"
