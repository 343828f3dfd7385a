-- ===== src/Pods/Deep.antt =====
-- Equality of all fields, which go-cmp computes for the objects of virtual_kubelet/node, for tests.
use virtual_kubelet.Common.{◌≡◌, true, Option, List, ℤ, Text, Map, decided, arith, ℕ_discrete}
use virtual_kubelet.Kube.{Container, PodStatus, Pod}
use virtual_kubelet.Pods.{Cmp}

pub Containers-discrete : Discrete (List Container)
Containers-discrete = hlevel (ℕ_discrete)

pub Times-discrete : Discrete (Option ℤ)
Times-discrete = hlevel (ℕ_discrete)

pub Texts-discrete : Discrete (List Text)
Texts-discrete = hlevel (ℕ_discrete)

pub Maps-discrete : Discrete (Map Text)
Maps-discrete = hlevel (ℕ_discrete)

pub PodStatus-discrete : Discrete PodStatus
PodStatus-discrete = hlevel (ℕ_discrete)

pub Pod-discrete : Discrete Pod
Pod-discrete = hlevel (ℕ_discrete)

-- Equality of all fields.
abbrev pub deep : Cmp
deep = record {
  containers = λ a b. decided (Containers-discrete a b);
  deadlines = λ a b. decided (Times-discrete a b);
  texts = λ a b. decided (Texts-discrete a b);
  maps = λ a b. decided (Maps-discrete a b);
  statuses = λ a b. decided (PodStatus-discrete a b);
  pods = λ a b. decided (Pod-discrete a b);
}

pub deep_reflexive : (p : Pod) → deep.pods p p ≡ true
deep_reflexive p = ground arith

pub deep_sound : (p q : Pod) → deep.pods p q ≡ true → p ≡ q
deep_sound p q h = ground arith

pub deep_sound_parts :
    ((a b : List Container) → deep.containers a b ≡ true → a ≡ b)
    × ((a b : Option ℤ) → deep.deadlines a b ≡ true → a ≡ b)
    × ((a b : List Text) → deep.texts a b ≡ true → a ≡ b)
    × ((a b : Map Text) → deep.maps a b ≡ true → a ≡ b)
deep_sound_parts = (
  λ a b h. ground (arith, h),
  λ a b h. ground (arith, h),
  λ a b h. ground (arith, h),
  λ a b h. ground (arith, h),
)
