-- ===== src/Clientset/Local.antt =====
-- The client of the generated reconciler on the typed client.
use eventing_gitlab.Base.{[], String, Bool}
use eventing_gitlab.Errors.{Err}
use eventing_gitlab.Source.Types.{GitLabSource}
use eventing_gitlab.Runtime.Impl.{Patch, merge_patch, apply_patch, SourceClient}
use eventing_gitlab.Clientset.{RestInterface}
use eventing_gitlab.Clientset.Sources.{git_lab_sources}

-- How patches are written: as JSON, with the types of patches and the options of apimachinery; and
-- the tests of errors.
pub record Wire (O : Type 0) : Type 0 where
  pub marshal : Patch → String
  pub merge_patch_type : String
  pub apply_patch_type : String
  pub empty_options : O
  pub apply_options : (field_manager : String) → (force : Bool) → O
  pub is_not_found : Err → Bool
  pub is_conflict : Err → Bool

module _ {O : Type 0} (wire : Wire O) where
  patch_type_of : Patch → String
  patch_type_of (merge_patch finalizers version) = wire.merge_patch_type
  patch_type_of (apply_patch api_version kind name uid namespace finalizers manager force) =
      wire.apply_patch_type

  patch_options_of : Patch → O
  patch_options_of (merge_patch finalizers version) = wire.empty_options
  patch_options_of (apply_patch api_version kind name uid namespace finalizers manager force) =
      wire.apply_options manager force

module _ {C O H W : Type 0} (wire : Wire O) where
  -- `r.Client.SourcesV1alpha1().GitLabSources(namespace)`, by its three methods that the reconciler
  -- calls.
  pub source_client : RestInterface (GitLabSource C) O H W → SourceClient C W
  unfolding git_lab_sources patch_type_of patch_options_of
  source_client rest = record {
    patch = λ namespace name p.
        (git_lab_sources rest namespace).patch_named name (patch_type_of wire p) (wire.marshal p)
          (patch_options_of wire p) [];
    get = λ namespace name. (git_lab_sources rest namespace).get_named name wire.empty_options;
    update_status =
        λ namespace o. (git_lab_sources rest namespace).update_status o wire.empty_options;
    is_not_found = wire.is_not_found;
    is_conflict = wire.is_conflict;
  }
