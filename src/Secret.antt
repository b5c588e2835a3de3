-- ===== src/Secret.antt =====
-- pkg/secret/secret.go: a getter of several secret values that asks the cluster for each Secret
-- object at most once.
pub mod Laws
pub mod Calls
pub mod Failing
use eventing_gitlab.Base.{Option, none, some, List, [], ◌∷◌, String, ◌==◌, if◌then◌else◌}
use eventing_gitlab.Errors.{Action, pure, wrapping, ◌>>=◌}
use eventing_gitlab.Source.Types.{SecretKeySelector}

-- The `Data` of a `corev1.Secret`, its first entry for a key being the one that counts.
abbrev pub SecretData : Type 0
SecretData = List (String × String)

-- `string(secr.Data[key])`: the zero value "" for a missing key.
unfoldable pub secret_value : String → SecretData → String
secret_value key [] = ""
secret_value key ((k, v) ∷ entries) = if k == key then v else secret_value key entries

-- `secretCache`
abbrev pub Cache : Type 0
Cache = List (String × SecretData)

pub find_secret : String → Cache → Option SecretData
find_secret name [] = none
find_secret name ((n, d) ∷ cache) = if n == name then some d else find_secret name cache

-- A call of the Secret interface of one namespace on a state `S` of its environment.
abbrev pub SecretInterface : Type 0 → Type 0
SecretInterface S = String → Action S SecretData

module _ {S : Type 0} (cli : SecretInterface S) where
  -- The Secret object, and the cache with it: the cached one where there is one.
  pub cached_or_read : String → Cache → Option SecretData → Action S (SecretData × Cache)
  cached_or_read name cache (some secr) = pure (secr, cache)
  cached_or_read name cache none = do
    secr ← wrapping "getting Secret %q from cluster: %w" (name ∷ []) (cli name)
    pure (secr, (name, secr) ∷ cache)

  -- One round of the loop for a selector that is not nil.
  pub fetch : String → Cache → Action S (SecretData × Cache)
  unfolding find_secret cached_or_read
  fetch name cache = cached_or_read name cache (find_secret name cache)

  -- The loop of `GetterWithClientset.Get`: the values from here on.
  pub get_from : Cache → List (Option SecretKeySelector) → Action S (List String)
  unfolding fetch secret_value
  get_from cache [] = pure []
  get_from cache (none ∷ refs) = do vals ← get_from cache refs; pure ("" ∷ vals)
  get_from cache (some ref ∷ refs) = do
    found ← fetch ref.name cache
    vals ← get_from found.1 refs
    pure (secret_value ref.key found.0 ∷ vals)

  -- `GetterWithClientset.Get`
  pub get : List (Option SecretKeySelector) → Action S (List String)
  unfolding get_from
  get refs = get_from [] refs
