-- ===== src/Binding/PodSpec.antt =====
-- `Do` and `Undo`: pkg/apis/bindings/v1alpha1/gitlabbinding_lifecycle.go, which mount the access
-- token into the pods of the subject. The slices of distinct containers share no backing array,
-- so that each is a list of its own.
mod Slices
pub mod Mounting
pub mod Rest
use eventing_gitlab.Base.{
  ℕ, Option, none, some, List, [], ◌∷◌, ◌++◌, map, String, Bool, true, false, ◌==◌, if◌then◌else◌,
}
use eventing_gitlab.Source.Types.{SecretKeySelector}
use eventing_gitlab.Binding.Types.{GitLabBinding}

pub record KeyToPath : Type 0 where
  pub key : String
  pub path : String

-- A `corev1.VolumeSource`: the secret volume that `Do` writes, or one of another kind.
pub data VolumeSource : Type 0 where
  secret : (secret_name : String) → List KeyToPath → VolumeSource
  other : ℕ → VolumeSource

pub record Volume : Type 0 where
  pub name : String
  pub source : VolumeSource

pub record VolumeMount : Type 0 where
  pub name : String
  pub read_only : Bool
  pub mount_path : String

pub record Container : Type 0 where
  pub name : String
  pub image : String
  pub volume_mounts : List VolumeMount

-- `ps.Spec.Template.Spec` of a `duckv1.WithPod`.
pub record PodSpec : Type 0 where
  pub volumes : List Volume
  pub init_containers : List Container
  pub containers : List Container

-- gitlab/client.go
abbrev pub access_token_key : String
access_token_key = "accessToken"

abbrev pub volume_name : String
volume_name = "gitlab-binding"

abbrev pub mount_path : String
mount_path = "/var/bindings/gitlab"

-- `for i, v := range s { if v.Name == name { s = append(s[:i], s[i+1:]...); break } }`
pub remove_first : {A : Type 0} → (A → String) → List A → List A
remove_first name [] = []
remove_first name (v ∷ vs) = if name v == volume_name then vs else v ∷ remove_first name vs

abbrev pub unmount : Container → Container
unmount c = record c { volume_mounts = remove_first (λ vm. vm.name) c.volume_mounts }

-- `Undo`
pub undo : PodSpec → PodSpec
undo ps = record {
  volumes = remove_first (λ v. v.name) ps.volumes;
  init_containers = map unmount ps.init_containers;
  containers = map unmount ps.containers;
}

abbrev pub volume : SecretKeySelector → Volume
volume ref = record {
  name = volume_name;
  source = secret ref.name (record { key = ref.key; path = access_token_key } ∷ []);
}

abbrev pub volume_mount : VolumeMount
volume_mount = record { name = volume_name; read_only = true; mount_path = mount_path }

abbrev pub mount : Container → Container
mount c = record c { volume_mounts = c.volume_mounts ++ volume_mount ∷ [] }

-- The part of `Do` behind the call of `Undo`.
pub attach : SecretKeySelector → PodSpec → PodSpec
attach ref ps = record {
  volumes = ps.volumes ++ volume ref ∷ [];
  init_containers = map mount ps.init_containers;
  containers = map mount ps.containers;
}

-- How a call ends, with the pod as it is then: a nil selector is dereferenced after `Undo`.
pub data Outcome : Type 0 where
  returned : PodSpec → Outcome
  panicked : PodSpec → Outcome

-- `Do`
pub do_binding : {C : Type 0} → GitLabBinding C → PodSpec → Outcome
unfolding undo attach
do_binding b ps = elim b.spec.access_token [
  | none ↦ panicked (undo ps)
  | some ref ↦ returned (attach ref (undo ps))
]
