-- ===== src/Binding/PodSpec/Rest.antt =====
-- What `Do` and `Undo` keep of a pod, and what `Do` mounts into it.
use eventing_gitlab.Base.{
  ℕ, ◌+◌, ◌-◌, ◌≡◌, refl, ap, ◌∙◌, inl, inr, some, List, [], ◌∷◌, ◌++◌, map, In, All, true,
}
use mathlib.Core.Path.{fun_ext}
use eventing_gitlab.Source.Types.{SecretKeySelector}
use eventing_gitlab.Binding.Types.{GitLabBinding}
use eventing_gitlab.Binding.PodSpec.{
  Volume, VolumeMount, secret, Container, PodSpec, remove_first, unmount, undo, volume,
  volume_mount, mount, attach, returned, do_binding,
}
use eventing_gitlab.Binding.PodSpec.Slices.{
  others, count_named-remove_first, others-remove_first, others-append, count_named-append,
}
use eventing_gitlab.Binding.PodSpec.Mounting.{
  with_mounts, map-map, pod_path, volumes_of, do_binding-eq-returned,
}

-- What a container holds beside the mounts of the binding's name.
abbrev pub rest_of : Container → Container
rest_of c = with_mounts c (others (λ vm. vm.name) c.volume_mounts)

abbrev pub rest : PodSpec → PodSpec
rest ps = record {
  volumes = others (λ v. v.name) ps.volumes;
  init_containers = map rest_of ps.init_containers;
  containers = map rest_of ps.containers;
}

map_congr :
    (f g : Container → Container) (cs : List Container)
    → ((c : Container) → f c ≡ g c)
    → map f cs ≡ map g cs
map_congr f g cs h = rw (fun_ext h)

rest_of-unmount : (c : Container) → rest_of (unmount c) ≡ rest_of c
rest_of-unmount c = ap (with_mounts c) (others-remove_first (λ vm. vm.name) c.volume_mounts)

rest_of-mount : (c : Container) → rest_of (mount c) ≡ rest_of c
rest_of-mount c =
    ap (with_mounts c) (others-append (λ vm. vm.name) c.volume_mounts volume_mount refl)

rest-undo : (ps : PodSpec) → rest (undo ps) ≡ rest ps
unfolding undo
rest-undo ps =
    pod_path _ _ (others-remove_first (λ v. v.name) ps.volumes)
      (map-map rest_of unmount ps.init_containers
        ∙ map_congr _ _ ps.init_containers rest_of-unmount)
      (map-map rest_of unmount ps.containers ∙ map_congr _ _ ps.containers rest_of-unmount)

rest-attach : (ref : SecretKeySelector) (ps : PodSpec) → rest (attach ref ps) ≡ rest ps
unfolding attach
rest-attach ref ps =
    pod_path _ _ (others-append (λ v. v.name) ps.volumes (volume ref) refl)
      (map-map rest_of mount ps.init_containers ∙ map_congr _ _ ps.init_containers rest_of-mount)
      (map-map rest_of mount ps.containers ∙ map_congr _ _ ps.containers rest_of-mount)

-- Where `Do` returns, it and `Undo` keep every volume and every mount of another name, in place
-- and in order, and the names and images of the containers.
pub do_binding-rest :
    {C : Type 0} (b : GitLabBinding C) (ps bound : PodSpec)
    → do_binding b ps ≡ returned bound
    → (rest (undo ps) ≡ rest ps) × (rest bound ≡ rest ps)
do_binding-rest b ps bound e =
    let (ref, token, shape) = do_binding-eq-returned b ps bound e in
    (rest-undo ps, rw shape (rest-attach ref (undo ps) ∙ rest-undo ps))

-- Where `Do` returns: `Undo` takes away one volume of the binding's name if there is one, and no
-- more, and `Do` leaves one volume more than that.
pub volumes_of-do_binding :
    {C : Type 0} (b : GitLabBinding C) (ps bound : PodSpec)
    → do_binding b ps ≡ returned bound
    → (volumes_of (undo ps) ≡ volumes_of ps - 1) × (volumes_of bound ≡ volumes_of ps - 1 + 1)
unfolding undo attach
volumes_of-do_binding b ps bound e =
    let (ref, token, shape) = do_binding-eq-returned b ps bound e in
    let less = count_named-remove_first (λ v. v.name) ps.volumes in
    (
      less,
      rw shape (
          count_named-append (λ v. v.name) (remove_first (λ v. v.name) ps.volumes) (volume ref) refl
          ∙ ap (λ (n : ℕ). n + 1) less),
    )

In-append_last : {A : Type 0} (xs : List A) (a : A) → In a (xs ++ a ∷ [])
In-append_last [] a = inl refl
In-append_last (x ∷ xs) a = inr (In-append_last xs a)

mounted : (cs : List Container) → All (λ c. In volume_mount c.volume_mounts) (map mount cs)
mounted [] = tt
mounted (c ∷ cs) = (In-append_last c.volume_mounts volume_mount, mounted cs)

mounts_of-mount :
    (cs : List Container)
    → map (λ c. c.volume_mounts) (map mount cs) ≡ map (λ c. c.volume_mounts ++ volume_mount ∷ []) cs
mounts_of-mount [] = refl
mounts_of-mount (c ∷ cs) =
    ap (λ ms. (c.volume_mounts ++ volume_mount ∷ []) ∷ ms) (mounts_of-mount cs)

-- The volume that is expected: of the secret, its key at the file of the token.
abbrev pub token_volume : SecretKeySelector → Volume
token_volume ref = record {
  name = "gitlab-binding";
  source = secret ref.name (record { key = ref.key; path = "accessToken" } ∷ []);
}

-- The mount that is expected.
abbrev pub token_mount : VolumeMount
token_mount = record {
  name = "gitlab-binding";
  read_only = true;
  mount_path = "/var/bindings/gitlab";
}

-- Where `Do` returns, the last volume of the pod, named gitlab-binding, is of the secret that the
-- binding names, with its key at the file accessToken, and each container and each init container
-- mounts it read-only at /var/bindings/gitlab, behind the mounts that `Undo` leaves.
pub do_binding_mounts :
    {C : Type 0} (b : GitLabBinding C) (ref : SecretKeySelector) (ps bound : PodSpec)
    → b.spec.access_token ≡ some ref
    → do_binding b ps ≡ returned bound
    → (bound.volumes ≡ (undo ps).volumes ++ token_volume ref ∷ [])
      × In (token_volume ref) bound.volumes
      × All (λ c. In token_mount c.volume_mounts) bound.init_containers
      × All (λ c. In token_mount c.volume_mounts) bound.containers
      × (map (λ c. c.volume_mounts) bound.init_containers
          ≡ map (λ c. c.volume_mounts ++ token_mount ∷ []) (undo ps).init_containers)
      × (map (λ c. c.volume_mounts) bound.containers
          ≡ map (λ c. c.volume_mounts ++ token_mount ∷ []) (undo ps).containers)
unfolding attach
do_binding_mounts b ref ps bound token e =
    let (ref', token', shape) = do_binding-eq-returned b ps bound e in
    let same : ref' ≡ ref = cc in
    rw (shape, same)
      (
        refl,
        In-append_last (undo ps).volumes (volume ref),
        mounted (undo ps).init_containers,
        mounted (undo ps).containers,
        mounts_of-mount (undo ps).init_containers,
        mounts_of-mount (undo ps).containers,
      )
