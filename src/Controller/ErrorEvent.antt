-- ===== src/Controller/ErrorEvent.antt =====
-- `CreateErrorEvent` of internal/controller/pod_utils.go: the error in a pod's annotations and as an
-- event of the cluster. The times, the pod's UID and the versions in the event are left out.
use l2s_m.Base.{Text, codes}
use l2s_m.Base.Dict
use l2s_m.Api.Meta.{Pod}

abbrev pub error_annotation : Text
error_annotation = codes "l2sm/error"

-- `corev1.Event`
pub record PodEvent : Type 0 where
  pub generate_name : Text
  pub namespace : Text
  pub involved_kind : Text
  pub involved_name : Text
  pub reason : Text
  pub message : Text
  pub type : Text
  pub component : Text

-- The pod in memory, and the world after the event was created, whose error is only logged.
unfoldable pub create_error_event :
    {W : Type 0} → (PodEvent → W → W) → Pod → Text → Text → W → Pod × W
create_error_event create pod message reason w =
    let annotated : Pod = record pod {
      meta = record pod.meta { annotations = Dict.insert error_annotation message pod.annotations };
    } in
    (
      annotated,
      create
          (record {
            generate_name = codes "l2sm-";
            namespace = annotated.namespace;
            involved_kind = codes "Pod";
            involved_name = annotated.name;
            reason = reason;
            message = message;
            type = codes "Warning";
            component = codes "l2sm";
          })
          w,
    )
