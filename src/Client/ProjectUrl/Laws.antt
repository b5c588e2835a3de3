-- ===== src/Client/ProjectUrl/Laws.antt =====
-- Splitting a project's URL.

use Prim.Native.Char.{Char}
use mathlib.Core.Path.{subst}
use mathlib.Core.Bool.{false, false≢true}
use Prim.Native.String.{String, [], ◌∷◌, ◌++◌}
use text.Mathlib.TextLemmas.{
  nil-append, cons-append, cons≢nil, nil≢cons, tail-eq_of_cons-eq, append-ne-nil_of_right_ne-nil,
}
use eventing_gitlab.Base.{
  ◌≡◌, refl, sym, ap, ◌∙◌, ◌≢◌, ◌↔◌, ◌⊎◌, inl, inr, arith, ◌==◌, eq_iff, eq_refl, Bool-cases,
}
use mathlib.Core.List.{List}
use eventing_gitlab.Errors.Guarded.{Guarded}
use eventing_gitlab.Base.Texts.{longer_ne}
use eventing_gitlab.Errors.{Err, wrap, Result, ok, err, panic}
use eventing_gitlab.Client.ProjectUrl.{trim_suffix, components, split_gitlab_project_url}

trim_suffix_self : (s : String) → trim_suffix s s ≡ []
unfolding trim_suffix
trim_suffix_self [] = refl
trim_suffix_self (c ∷ s) = rw (eq_refl (c ∷ s))

trim_suffix-append : (s t : String) → trim_suffix (s ++ t) t ≡ s
unfolding trim_suffix
trim_suffix-append [] t = rw nil-append (trim_suffix_self t)
trim_suffix-append (c ∷ s) t =
    rw cons-append (rw (longer_ne c s t) (ap (λ r. c ∷ r) (trim_suffix-append s t)))

not_before :
    (c : Char) (s t : String)
    → ((c ∷ s) == t) ≡ false
    → ((u : String) → u ++ t ≢ s)
    → (u : String) → u ++ t ≢ (c ∷ s)
not_before c s t other none_before [] h =
    false≢true (sym other ∙ (eq_iff (c ∷ s) t).1 (sym h ∙ nil-append t))
not_before c s t other none_before (d ∷ u) h =
    none_before u (tail-eq_of_cons-eq (sym (cons-append d u t) ∙ h))

-- Either the suffix is taken off, or the text is no text before the suffix and is left as it is.
trim_suffix_cases :
    (s t : String)
    → (trim_suffix s t ++ t ≡ s) ⊎ ((trim_suffix s t ≡ s) × ((u : String) → u ++ t ≢ s))
unfolding trim_suffix
trim_suffix_cases [] [] = inl (nil-append [])
trim_suffix_cases [] (d ∷ t) = inr (refl, λ u. append-ne-nil_of_right_ne-nil u (λ e. cons≢nil e))
trim_suffix_cases (c ∷ s) t = elim (Bool-cases ((c ∷ s) == t)) [
  | inl same ↦ inl (rw same (rw nil-append (sym ((eq_iff (c ∷ s) t).0 same))))
  | inr other ↦ elim (trim_suffix_cases s t) [
    | inl e ↦ inl (rw other (rw cons-append (ap (λ r. c ∷ r) e)))
    | inr (e, none_before) ↦
        inr (rw other (ap (λ r. c ∷ r) e), λ u h. not_before c s t other none_before u h)
  ]
]

-- The base is what stands before the name in the URL, or the whole URL where the name is not its end.
abbrev pub IsBase : (url base name : String) → Type 0
IsBase url base name =
    (base ++ name ≡ url) ⊎ ((base ≡ url) × (¬ ((u : String) × (u ++ name ≡ url))))

trim_suffix_iff : (url base name : String) → (trim_suffix url name ≡ base) ↔ IsBase url base name
trim_suffix_iff url base name = (to, from)
  where
    to : trim_suffix url name ≡ base → IsBase url base name
    to h = elim (trim_suffix_cases url name) [
      | inl e ↦ inl (ap (λ b. b ++ name) (sym h) ∙ e)
      | inr (e, none_before) ↦ inr (sym h ∙ e, λ k. none_before k.0 k.1)
    ]

    from : IsBase url base name → trim_suffix url name ≡ base
    from (inl e) = ap (λ u. trim_suffix u name) (sym e) ∙ trim_suffix-append base name
    from (inr (same, none_before)) = elim (trim_suffix_cases url name) [
      | inl e ↦ absurd (none_before (trim_suffix url name, e))
      | inr (e, k) ↦ e ∙ sym same
    ]

module _ (parse : String → Result String) where
  -- A URL of a base and the project's name, whose path is the name behind a slash, splits into the
  -- two.
  pub split_gitlab_project_url-append :
      (base name : String)
      → parse (base ++ name) ≡ ok ("/" ∷ name)
      → split_gitlab_project_url parse (base ++ name) ≡ ok (base, name)
  unfolding split_gitlab_project_url
  split_gitlab_project_url-append base name e =
      rw (e, split_gitlab_project_url) (ap (λ b. ok (b, name)) (trim_suffix-append base name))

  -- The call gives a base and a name exactly when the URL is parsed, its path is the name behind one
  -- character, and the base is what stands before the name in the URL, the slash included, or the
  -- whole URL where the URL does not end with the name.
  pub split_gitlab_project_url_iff :
      (url base name : String)
      → (split_gitlab_project_url parse url ≡ ok (base, name))
        ↔ ((slash : Char) × (parse url ≡ ok (slash ∷ name)) × IsBase url base name)
  unfolding split_gitlab_project_url
  split_gitlab_project_url_iff url base name = by_cases (parse url) refl
    where
      Found : Result String → Type 0
      Found r = (slash : Char) × (r ≡ ok (slash ∷ name)) × IsBase url base name

      path_cases : (path : String) → (components url path ≡ ok (base, name)) ↔ Found (ok path)
      path_cases [] = ((λ e. cc e), λ (c, e, b). absurd (nil≢cons (ok_path e)))
        where
          ok_path : {s t : String} → ◌≡◌ {A = Result String} (ok s) (ok t) → s ≡ t
          ok_path e = cc
      path_cases (c ∷ n) = (to, from)
        where
          to : components url (c ∷ n) ≡ ok (base, name) → Found (ok (c ∷ n))
          to e =
              let b : trim_suffix url n ≡ base = ground arith in
              let same : n ≡ name = ground arith in
              (
                c,
                ap (λ m. ok (c ∷ m)) same,
                subst (λ m. IsBase url base m) same ((trim_suffix_iff url base n).0 b),
              )

          from : Found (ok (c ∷ n)) → components url (c ∷ n) ≡ ok (base, name)
          from (d, e, b) =
              let whole : (c ∷ n) ≡ (d ∷ name) = cc in
              let same : n ≡ name = tail-eq_of_cons-eq whole in
              ap (λ m. ok (trim_suffix url m, m)) same
              ∙ ap (λ t. ok (t, name)) ((trim_suffix_iff url base name).1 b)

      by_cases :
          (r : Result String)
          → parse url ≡ r
          → (split_gitlab_project_url parse url ≡ ok (base, name)) ↔ Found (parse url)
      by_cases (ok path) k = rw (k, split_gitlab_project_url) (path_cases path)
      by_cases (err x) k = rw (k, split_gitlab_project_url) (λ e. cc, λ (c, e, b). cc)
      by_cases panic k = rw (k, split_gitlab_project_url) (λ e. cc, λ (c, e, b). cc)

  -- Where the URL parser does not panic on a URL, the call panics exactly when the path of the URL
  -- is empty.
  pub split_gitlab_project_url-eq-panic_iff :
      (url : String)
      → parse url ≢ panic
      → (split_gitlab_project_url parse url ≡ panic) ↔ (parse url ≡ ok "")
  unfolding split_gitlab_project_url
  split_gitlab_project_url-eq-panic_iff url h = by_cases (parse url) refl
    where
      path_cases : (path : String) → (components url path ≡ panic) ↔ (path ≡ "")
      path_cases [] = (λ _. refl, λ _. refl)
      path_cases (c ∷ n) = ((λ e. cc), λ e. absurd (cons≢nil e))

      by_cases :
          (r : Result String)
          → parse url ≡ r
          → (split_gitlab_project_url parse url ≡ panic) ↔ (parse url ≡ ok "")
      by_cases (ok path) k =
          rw (k, split_gitlab_project_url)
            (λ e. ap ok ((path_cases path).0 e), λ e. (path_cases path).1 (ground arith))
      by_cases (err x) k = rw (k, split_gitlab_project_url) (λ e. cc, λ e. cc)
      by_cases panic k = absurd (h k)

-- Where the path is not empty, the split fails only as the parser does.
pub split_gitlab_project_url-Guarded :
    (parse : String → Result String) (P : Err → Type 0)
    → ((f : String) (a : List String) (e : Err) → P e → P (wrap f a e))
    → (url : String) → Guarded P (parse url)
    → parse url ≢ ok ""
    → Guarded P (split_gitlab_project_url parse url)
unfolding split_gitlab_project_url
split_gitlab_project_url-Guarded parse P closed url h path = by_cases (parse url) refl
  where
    path_cases : (p : String) → p ≢ "" → Guarded P (components url p)
    path_cases [] ne = absurd (ne refl)
    path_cases (c ∷ n) ne = tt

    by_cases : (r : Result String) → parse url ≡ r → Guarded P (split_gitlab_project_url parse url)
    by_cases (ok p) k =
        rw (k, split_gitlab_project_url, Guarded) (path_cases p (λ e. path (k ∙ ap ok e)))
    by_cases (err x) k = rw (k, split_gitlab_project_url, Guarded) (closed _ _ x (rw k at h))
    by_cases panic k = rw (k, split_gitlab_project_url, Guarded) (rw k at h)
