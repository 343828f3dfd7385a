-- ===== src/EndToEnd/Spec.antt =====
-- What the synchronisation of a pod (virtual_kubelet/node/podcontroller.go) promises of the pods in
-- the provider, as a map from keys to pods, without calls, traces or errors.
use virtual_kubelet.Common.{
  ◌≡◌, ◌≢◌, refl, sym, subst, ap, Bool, Option, none, some, is_some, Text, text_dec, ite, Map,
  lookup, insert, delete, lookup-insert, lookup-delete, is_not_found, arith, if◌then◌else◌,
}
use virtual_kubelet.Kube.{Pod}
use virtual_kubelet.Keys.{get_pod_key}
use virtual_kubelet.Pods.{PodResult, got, failed, Cmp, pods_equal, running, is_final}

-- The pod that the provider is to have, when Kubernetes has this one in a version that was not
-- brought to the provider before.
unfoldable pub wanted : Cmp → Pod → Option Pod → Option Pod
unfolding pods_equal
wanted cmp pod none = some pod
wanted cmp pod (some there) = if pods_equal cmp there pod then some there else some pod

-- A pod that is marked for deletion goes as soon as it is seen running; one that has ended stays.
unfoldable pub desired_version : Cmp → Pod → Option Pod → Option Pod
unfolding wanted running
desired_version cmp pod there =
    if is_some pod.deletion_timestamp
    then (if running pod.status.container_statuses then none else there)
    else if is_final pod.status.phase
    then there
    else wanted cmp pod there

-- `is_new` is whether the controller knows the pod, and has not brought this version to the provider.
unfoldable pub desired : Cmp → (Pod → Bool) → PodResult → Option Pod → Option Pod
unfolding desired_version
desired cmp is_new (failed e) there = if is_not_found e then none else there
desired cmp is_new (got pod) there = if is_new pod then desired_version cmp pod there else there

-- What Kubernetes answers for a key is the pod of that key.
abbrev pub IsFor : Text → PodResult → Type 0
IsFor key (got pod) = get_pod_key pod.namespace pod.name ≡ key
IsFor key (failed e) = Unit {0}

-- One key gets this entry, and all others keep theirs.
abbrev pub Becomes : Text → Option Pod → Map Pod → Map Pod → Type 0
Becomes key entry m m' = (j : Text) → lookup j m' ≡ ite (text_dec key j) entry (lookup j m)

pub Becomes-at :
    (key : Text) (entry : Option Pod) (m m' : Map Pod)
    → Becomes key entry m m'
    → lookup key m' ≡ entry
Becomes-at key entry m m' h = let e = h key in ground (arith, e)

pub Becomes-other :
    (key j : Text) (entry : Option Pod) (m m' : Map Pod)
    → Becomes key entry m m'
    → key ≢ j
    → lookup j m' ≡ lookup j m
Becomes-other key j entry m m' h n = let e = h j in ground (arith, e)

pub Becomes-same : (key : Text) (m : Map Pod) → Becomes key (lookup key m) m m
Becomes-same key m j =
    elim (text_dec key j) as (λ d. lookup j m ≡ ite d (lookup key m) (lookup j m)) [
      | yes e ↦ ap (λ k. lookup k m) (sym e)
      | no n ↦ refl
    ]

pub Becomes-insert :
    (key : Text) (pod : Pod) (m : Map Pod) → Becomes key (some pod) m (insert key pod m)
Becomes-insert key pod m j = lookup-insert key j pod m

pub Becomes-delete : (key : Text) (m : Map Pod) → Becomes key none m (delete key m)
Becomes-delete key m j = lookup-delete key j m

pub Becomes-by :
    (key : Text) (entry : Option Pod) (m m' n : Map Pod)
    → m' ≡ n
    → Becomes key entry m n
    → Becomes key entry m m'
Becomes-by key entry m m' n e h = subst (Becomes key entry m) (sym e) h
