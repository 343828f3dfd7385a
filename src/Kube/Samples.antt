-- ===== src/Kube/Samples.antt =====
-- Objects for the tests of the modules that handle Kubernetes objects.
use virtual_kubelet.Common.{true, none, some, [], ◌∷◌, pos, text}
use virtual_kubelet.Kube.{
  Container, ContainerStatus, no_phase, PodStatus, always, Pod, BizStatusData,
}

abbrev pub biz_container : Container
biz_container = record {
  name = text "biz1";
  image = text "biz1.jar";
  env = record { name = text "BIZ_VERSION"; value = text "1.0" } ∷ [];
  other = [];
}

abbrev pub side_container : Container
side_container = record { name = text "side"; image = text "side:1"; env = []; other = [] }

abbrev pub new_status : PodStatus
new_status = record {
  phase = no_phase;
  reason = [];
  message = [];
  pod_ip = [];
  conditions = [];
  container_statuses = [];
}

abbrev pub biz_pod : Pod
biz_pod = record {
  namespace = text "ns";
  name = text "a";
  uid = text "u1";
  resource_version = text "7";
  labels = [];
  annotations = [];
  finalizers = [];
  creation_timestamp = pos 1;
  deletion_timestamp = none;
  deletion_grace_period_seconds = none;
  node_name = text "n1";
  containers = biz_container ∷ side_container ∷ [];
  init_containers = [];
  active_deadline_seconds = none;
  tolerations = [];
  restart_policy = always;
  status = new_status;
}

abbrev pub running_container : ContainerStatus
running_container = record {
  name = text "biz1";
  container_id = text "biz1";
  state = record { waiting = none; running = some (pos 5_000_000_000); terminated = none };
  ready = true;
  started = some true;
  image = text "biz1.jar";
  image_id = text "biz1.jar";
}

abbrev pub running_pod : Pod
running_pod = record biz_pod {
  status = record new_status { container_statuses = running_container ∷ [] };
}

abbrev pub report : BizStatusData
report = record {
  key = text "biz1:1.0";
  name = text "biz1";
  pod_key = [];
  state = text "activated";
  change_time = pos 65_000_000_000;
  reason = [];
  message = [];
}
