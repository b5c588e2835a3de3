-- ===== src/Secret/Failing.antt =====
-- How the getter fails.
use eventing_gitlab.Base.{Option, none, some, List, [], ◌∷◌, String}
use eventing_gitlab.Errors.{Err, wrap, wrapping, pure, ◌>>=◌}
use eventing_gitlab.Errors.Guarded.{Guarded, Guarded-bind, Guarded-wrapping}
use eventing_gitlab.Source.Types.{SecretKeySelector}
use eventing_gitlab.Secret.{
  SecretData, secret_value, Cache, find_secret, SecretInterface, cached_or_read, fetch, get_from,
  get,
}

-- The getter does not panic and its errors have a property where this holds of the Secret
-- interface and wrapping keeps the property.
module _ {S : Type 0} (cli : SecretInterface S) (P : Err → Type 0)
    (closed : (f : String) (a : List String) (e : Err) → P e → P (wrap f a e))
    (guarded : (name : String) (s : S) → Guarded P (cli name s).0) where
  cached_or_read-Guarded :
      (name : String) (cache : Cache) (o : Option SecretData) (s : S)
      → Guarded P (cached_or_read cli name cache o s).0
  unfolding cached_or_read
  cached_or_read-Guarded name cache (some secr) s = tt
  cached_or_read-Guarded name cache none s =
      Guarded-bind P (wrapping "getting Secret %q from cluster: %w" (name ∷ []) (cli name))
        (λ secr. pure (secr, (name, secr) ∷ cache)) s
        (Guarded-wrapping P closed "getting Secret %q from cluster: %w" (name ∷ []) (cli name) s
          (guarded name s))
        (λ a s' r. tt)

  get_from-Guarded :
      (cache : Cache) (refs : List (Option SecretKeySelector)) (s : S)
      → Guarded P (get_from cli cache refs s).0
  unfolding get_from fetch
  get_from-Guarded cache [] s = tt
  get_from-Guarded cache (none ∷ refs) s =
      Guarded-bind P (get_from cli cache refs) (λ vals. pure ("" ∷ vals)) s
        (get_from-Guarded cache refs s) (λ a s' r. tt)
  get_from-Guarded cache (some ref ∷ refs) s =
      Guarded-bind P (fetch cli ref.name cache)
        (λ found.
          get_from cli found.1 refs >>= (λ vals. pure (secret_value ref.key found.0 ∷ vals)))
        s (cached_or_read-Guarded ref.name cache (find_secret ref.name cache) s)
        (λ found s' r.
          Guarded-bind P (get_from cli found.1 refs)
            (λ vals. pure (secret_value ref.key found.0 ∷ vals)) s'
            (get_from-Guarded found.1 refs s') (λ a s'' r. tt))

  pub get-Guarded : (refs : List (Option SecretKeySelector)) (s : S) → Guarded P (get cli refs s).0
  unfolding get
  get-Guarded refs s = get_from-Guarded [] refs s
