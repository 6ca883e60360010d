-- ===== src/Common/Instance.antt =====
-- `CryostatInstance` and `FromCryostat` (internal/controller/model/instance.go). The object that the
-- instance was made from is left out here: its metadata are those of the instance's name.
use cryostat_operator.Prelude.{String, List, [], get_or}
use cryostat_operator.Api.Kube.{Kube}
use cryostat_operator.Api.V1beta2.{CryostatSpec, CryostatStatus, Cryostat}

module _ (K : Kube) where
  pub record CryostatInstance : Type 0 where
    pub name : String
    pub install_namespace : String
    pub target_namespaces : List String
    pub target_namespace_status : List String
    pub spec : CryostatSpec K
    pub status : CryostatStatus K

  -- A nil slice of namespaces is read as an empty one.
  unfoldable pub from_cryostat : Cryostat K → CryostatInstance
  from_cryostat cr = record {
    name = K.name cr.object_meta;
    install_namespace = K.namespace cr.object_meta;
    target_namespaces = get_or cr.spec.target_namespaces [];
    target_namespace_status = get_or cr.status.target_namespaces [];
    spec = cr.spec;
    status = cr.status;
  }
