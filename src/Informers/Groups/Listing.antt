-- ===== src/Informers/Groups/Listing.antt =====
-- What an informer asks of the API.
use mathlib.Core.Path.{subst}
use eventing_gitlab.Base.{ℕ, ◌≡◌, ap, Option, none, some, [], ◌∷◌, String, true}
use eventing_gitlab.Base.Dict.{lookup}
use eventing_gitlab.Source.Types.{GitLabSource}
use eventing_gitlab.Binding.Types.{GitLabBinding}
use eventing_gitlab.Clientset.{Request, RestInterface, ListOptions, list_options, get, timeout_of}
use eventing_gitlab.Clientset.Sources.{git_lab_sources}
use eventing_gitlab.Clientset.Bindings.{git_lab_bindings}
use eventing_gitlab.Informers.Factory.{resync_period, new_filtered_shared_informer_factory}
use eventing_gitlab.Informers.Factory.Steps.{Run}
use eventing_gitlab.Informers.Factory.Keeping.{informer_for-none, new_filtered-scope}
use eventing_gitlab.Informers.Groups.{Tweak, Clients, ListWatch, Caching, tweaked, Factory}
use eventing_gitlab.Informers.Groups.Sources.{
  source_type, source_informer_of, source_informer, default_source_informer,
  new_filtered_source_informer,
}

module _ {C O H W : Type 0} (sources : RestInterface (GitLabSource C) O H W)
    (bindings : RestInterface (GitLabBinding C) O H W) where
  -- The clientset over two REST clients.
  abbrev pub clients : Clients C O H W
  clients = record {
    git_lab_sources = λ namespace. git_lab_sources sources namespace;
    git_lab_bindings = λ namespace. git_lab_bindings bindings namespace;
  }

  -- A GET request for the sources of a namespace, by the options of a list or of a watch.
  abbrev pub get_sources :
      (namespace : String) → ListOptions → ListOptions → Request (GitLabSource C) O
  get_sources namespace given opts = record {
    verb = get;
    namespace = namespace;
    resource = "gitlabsources";
    name = none;
    sub_resources = [];
    params = some (list_options opts);
    timeout = some (timeout_of given);
    body = none;
  }

  -- The lists and watches of the sources of a namespace, whose options are tweaked.
  abbrev pub requests : (namespace : String) → Option Tweak → ListWatch (GitLabSource C) H W
  requests namespace tweak = record {
    list_func = λ options.
        let opts = tweaked tweak options in sources.do_into_list (get_sources namespace opts opts);
    watch_func = λ options.
        let opts = tweaked tweak options in
        sources.do_watch (get_sources namespace opts (record opts { watch = true }));
  }

  source_informer_of-requests :
      {I T : Type 0} (lib : Caching C H W I T) (f : Factory I T)
      → lookup source_type f.informers ≡ none
      → (source_informer_of lib clients f).0
        ≡ lib.set_transform f.transform (
            lib.new_source_informer
              (requests f.namespace f.tweak_list_options)
              (resync_period source_type f)
              ("namespace" ∷ []))
  unfolding source_informer_of source_informer default_source_informer new_filtered_source_informer
      git_lab_sources
  source_informer_of-requests lib f absent =
      ap (λ r. r.0) (informer_for-none lib.set_transform source_type _ f absent)

  -- The informer of the sources that a factory makes, when it has none, lists and watches by GET
  -- requests for the sources of the namespace that the factory was made for, with its tweak, whatever
  -- calls came before; it has the transform and the resync period that the factory gives.
  pub new_factory-requests :
      {I T : Type 0} (lib : Caching C H W I T) (default_resync : ℕ) (namespace : String)
      (tweak : Option Tweak) (f : Factory I T)
      → Run lib.set_transform
          (new_filtered_shared_informer_factory default_resync namespace tweak)
          f
      → lookup source_type f.informers ≡ none
      → (source_informer_of lib clients f).0
        ≡ lib.set_transform f.transform (
            lib.new_source_informer
              (requests namespace tweak)
              (resync_period source_type f)
              ("namespace" ∷ []))
  new_factory-requests lib default_resync namespace tweak f run absent =
      let (same, same') = new_filtered-scope lib.set_transform default_resync namespace tweak run in
      subst
        (λ (s : String × Option Tweak).
          (source_informer_of lib clients f).0
          ≡ lib.set_transform f.transform (
              lib.new_source_informer (requests s.0 s.1) (resync_period source_type f)
                ("namespace" ∷ [])))
        (λ i. (same i, same' i)) (source_informer_of-requests lib f absent)
