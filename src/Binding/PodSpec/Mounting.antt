-- ===== src/Binding/PodSpec/Mounting.antt =====
-- What `Do` and `Undo` leave in a pod when they follow each other.
use eventing_gitlab.Base.{
  ℕ, ◌≤◌, ◌≡◌, refl, ap, ◌∙◌, inl, inr, none, some, List, [], ◌∷◌, map, arith, Option-cases, All,
}
use eventing_gitlab.Source.Types.{SecretKeySelector}
use eventing_gitlab.Binding.Types.{GitLabBinding}
use eventing_gitlab.Binding.PodSpec.{
  VolumeMount, Container, PodSpec, unmount, undo, volume, volume_mount, mount, attach, returned,
  panicked, do_binding,
}
use eventing_gitlab.Binding.PodSpec.Slices.{
  count_named, count_named-remove_first, remove_first_absent, remove_first-append,
}

abbrev pub mounts_of : Container → ℕ
mounts_of c = count_named (λ vm. vm.name) c.volume_mounts

abbrev pub volumes_of : PodSpec → ℕ
volumes_of ps = count_named (λ v. v.name) ps.volumes

-- At most `n` volumes of the binding's name, and as many mounts in each container.
abbrev pub HasAtMost : ℕ → PodSpec → Type 0
HasAtMost n ps =
    (volumes_of ps ≤ n)
    × All (λ c. mounts_of c ≤ n) ps.init_containers
    × All (λ c. mounts_of c ≤ n) ps.containers

abbrev pub with_mounts : Container → List VolumeMount → Container
with_mounts c m = record c { volume_mounts = m }

map-eq_self :
    (f : Container → Container) (P : Container → Type 0) (cs : List Container)
    → ((c : Container) → P c → f c ≡ c)
    → All P cs
    → map f cs ≡ cs
map-eq_self f P [] h a = refl
map-eq_self f P (c ∷ cs) h a = λ i. h c a.0 i ∷ map-eq_self f P cs h a.1 i

All-map :
    (f : Container → Container) (P Q : Container → Type 0) (cs : List Container)
    → ((c : Container) → P c → Q (f c))
    → All P cs
    → All Q (map f cs)
All-map f P Q [] h a = tt
All-map f P Q (c ∷ cs) h a = (h c a.0, All-map f P Q cs h a.1)

pub map-map :
    (f g : Container → Container) (cs : List Container) → map f (map g cs) ≡ map (λ c. f (g c)) cs
map-map f g [] = refl
map-map f g (c ∷ cs) = rw (map-map f g cs)

unmount_absent : (c : Container) → mounts_of c ≤ 0 → unmount c ≡ c
unmount_absent c h =
    ap (with_mounts c) (remove_first_absent (λ vm. vm.name) c.volume_mounts (omega arith))

unmount-mount : (c : Container) → mounts_of c ≤ 0 → unmount (mount c) ≡ c
unmount-mount c h =
    ap (with_mounts c)
      (remove_first-append (λ vm. vm.name) c.volume_mounts volume_mount (omega arith) refl)

unmount_at_most : (c : Container) → mounts_of c ≤ 1 → mounts_of (unmount c) ≤ 0
unmount_at_most c h = omega (arith, count_named-remove_first (λ vm. vm.name) c.volume_mounts)

pub pod_path :
    (p q : PodSpec)
    → p.volumes ≡ q.volumes
    → p.init_containers ≡ q.init_containers
    → p.containers ≡ q.containers
    → p ≡ q
pod_path p q v i c = λ k. record { volumes = v k; init_containers = i k; containers = c k }

undo-attach : (ref : SecretKeySelector) (ps : PodSpec) → HasAtMost 0 ps → undo (attach ref ps) ≡ ps
unfolding undo attach
undo-attach ref ps (v, i, c) =
    pod_path _ ps (remove_first-append (λ v. v.name) ps.volumes (volume ref) (omega arith) refl)
      (map-map unmount mount ps.init_containers
        ∙ map-eq_self (λ c. unmount (mount c)) (λ c. mounts_of c ≤ 0) ps.init_containers
            unmount-mount i)
      (map-map unmount mount ps.containers
        ∙ map-eq_self (λ c. unmount (mount c)) (λ c. mounts_of c ≤ 0) ps.containers unmount-mount c)

undo-HasAtMost : (ps : PodSpec) → HasAtMost 1 ps → HasAtMost 0 (undo ps)
unfolding undo
undo-HasAtMost ps (v, i, c) = (
  omega (arith, count_named-remove_first (λ v. v.name) ps.volumes),
  All-map unmount (λ c. mounts_of c ≤ 1) (λ c. mounts_of c ≤ 0) ps.init_containers unmount_at_most
      i,
  All-map unmount (λ c. mounts_of c ≤ 1) (λ c. mounts_of c ≤ 0) ps.containers unmount_at_most c,
)

undo_unbound : (ps : PodSpec) → HasAtMost 0 ps → undo ps ≡ ps
unfolding undo
undo_unbound ps (v, i, c) =
    pod_path _ ps (remove_first_absent (λ v. v.name) ps.volumes (omega arith))
      (map-eq_self unmount (λ c. mounts_of c ≤ 0) ps.init_containers unmount_absent i)
      (map-eq_self unmount (λ c. mounts_of c ≤ 0) ps.containers unmount_absent c)

module _ {C : Type 0} where
  -- A binding with an access token that is applied to a pod without the binding's volume and
  -- mounts can be undone: `Undo` gives the pod back as it was.
  pub do_binding-undo :
      (b : GitLabBinding C) (ref : SecretKeySelector) (ps : PodSpec)
      → b.spec.access_token ≡ some ref
      → HasAtMost 0 ps
      → (bound : PodSpec) × (do_binding b ps ≡ returned bound) × (undo bound ≡ ps)
  unfolding do_binding
  do_binding-undo b ref ps token h = (
    attach ref (undo ps),
    rw token,
    ap (λ p. undo (attach ref p)) (undo_unbound ps h) ∙ undo-attach ref ps h,
  )

  pub do_binding-eq-returned :
      (b : GitLabBinding C) (ps bound : PodSpec)
      → do_binding b ps ≡ returned bound
      → (ref : SecretKeySelector) × (b.spec.access_token ≡ some ref)
        × (bound ≡ attach ref (undo ps))
  unfolding do_binding
  do_binding-eq-returned b ps bound e = elim (Option-cases b.spec.access_token) [
    | inl missing ↦ cc (rw (missing, do_binding) at e)
    | inr (ref, token) ↦ (ref, token, ground arith)
  ]

  -- `Do` returns where the access token's selector is not nil.
  pub do_binding_of_token :
      (b : GitLabBinding C) (ref : SecretKeySelector) (ps : PodSpec)
      → b.spec.access_token ≡ some ref
      → do_binding b ps ≡ returned (attach ref (undo ps))
  unfolding do_binding
  do_binding_of_token b ref ps token = rw token

  do_binding_congr :
      (b : GitLabBinding C) (p q : PodSpec) → undo p ≡ undo q → do_binding b p ≡ do_binding b q
  unfolding do_binding
  do_binding_congr b p q e = λ i. elim b.spec.access_token [
    | none ↦ panicked (e i)
    | some ref ↦ returned (attach ref (e i))
  ]

  -- In a pod with at most one volume of the binding's name, and at most one such mount in each
  -- container, a binding replaces the one applied before: binding again leaves what binding once
  -- leaves, whatever secret the first binding named.
  pub do_binding_replaces :
      (b b' : GitLabBinding C) (ps bound : PodSpec)
      → HasAtMost 1 ps
      → do_binding b ps ≡ returned bound
      → do_binding b' bound ≡ do_binding b' ps
  do_binding_replaces b b' ps bound h e =
      let (ref, token, shape) = do_binding-eq-returned b ps bound e in
      do_binding_congr b' bound ps (rw shape (undo-attach ref (undo ps) (undo-HasAtMost ps h)))
