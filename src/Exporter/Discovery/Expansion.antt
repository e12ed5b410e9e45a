-- ===== src/Exporter/Discovery/Expansion.antt =====
-- What is discovered: the explicit projects and what the wildcards expand to.
use mathlib.Core.Path.{fun_ext}
use amazing_gitlab_exporter.Base.{
  ℕ, zero, suc, String, true, ◌≡◌, ◌≢◌, ◌⊎◌, refl, ap, sym, subst, ◌∙◌, Option, some, List, [], ◌∷◌,
  ◌++◌, ◌==◌, comparable_nat, comparable_string, Bool-cases, Option-cases, inl, inr,
}
use amazing_gitlab_exporter.Base.Errors.{Error, Result, ok}
use amazing_gitlab_exporter.Gitlab.Api.{Response, Reply, failed, refused, answered}
use amazing_gitlab_exporter.Config.{OwnerConfig, WildcardConfig, Config}
use amazing_gitlab_exporter.Exporter.Discovery.{
  contains, add_paths, explicit_names, ListProjectsOptions, expand_reply, expand_from, expand_all,
  require_projects, discover_projects,
}
use amazing_gitlab_exporter.Exporter.Discovery.Paths.{
  IsDistinct, IsDistinct-add_paths, contains-add_paths, add_paths-prefix, add_paths-append,
}

-- `x` comes from `ps` by adding some paths.
abbrev Grows : List String → List String → Type 0
Grows ps x = (found : List String) × (x ≡ add_paths ps found)

Grows-trans : (a b c : List String) → Grows a b → Grows b c → Grows a c
Grows-trans a b c (f, p) (g, q) =
    (f ++ g, q ∙ ap (λ t. add_paths t g) p ∙ sym (add_paths-append a f g))

Grows-refl : (a : List String) → Grows a a
unfolding add_paths
Grows-refl a = ([], refl)

some-fst :
    {W : Type 0} {x y : List String} {u v : W}
    → ◌≡◌ {A = Option (List String × W)} (some (x, u)) (some (y, v))
    → x ≡ y
some-fst h = cc

ok-of-some :
    {W : Type 0} {x : Result (List String)} {y : List String} {u v : W}
    → ◌≡◌ {A = Option (Result (List String) × W)} (some (x, u)) (some (ok y, v))
    → x ≡ ok y
ok-of-some h = cc

module _ {W : Type 0} where
  expand_reply-Grows :
      (again : ℕ → List String → W → Option (List String × W))
      → ((page : ℕ) (qs : List String) (u : W) (x : List String) (u' : W)
          → again page qs u ≡ some (x, u')
          → Grows qs x)
      → (reply : Reply (List String)) (ps : List String) (w : W) (x : List String) (w' : W)
      → expand_reply again reply ps w ≡ some (x, w')
      → Grows ps x
  unfolding expand_reply add_paths
  expand_reply-Grows again ih (failed e) ps w x w' h = ([], sym (some-fst h))
  expand_reply-Grows again ih (refused response e) ps w x w' h = ([], sym (some-fst h))
  expand_reply-Grows again ih (answered response paths) ps w x w' h =
      elim (Bool-cases (response.next_page == 0)) [
        | inl last ↦ (paths, sym (some-fst (rw last at h)))
        | inr more ↦
            Grows-trans ps (add_paths ps paths) x (paths, refl) (ih _ _ w x w' (rw more at h))
      ]

module _ {W : Type 0} (list_projects : ListProjectsOptions → W → Reply (List String) × W) where
  expand_from-Grows :
      (fuel : ℕ) (wc : WildcardConfig) (page : ℕ) (ps : List String) (w : W) (x : List String)
      (w' : W)
      → expand_from list_projects fuel wc page ps w ≡ some (x, w')
      → Grows ps x
  unfolding expand_from
  expand_from-Grows zero wc page ps w x w' h = absurd (cc h)
  expand_from-Grows (suc fuel) wc page ps w x w' h =
      expand_reply-Grows (expand_from list_projects fuel wc)
        (λ page qs u y u'. expand_from-Grows fuel wc page qs u y u') _ ps _ x w' h

  expand_all-Grows :
      (fuel : ℕ) (wcs : List WildcardConfig) (ps : List String) (w : W) (x : List String) (w' : W)
      → expand_all list_projects fuel wcs ps w ≡ some (x, w')
      → Grows ps x
  unfolding expand_all add_paths
  expand_all-Grows fuel [] ps w x w' h = ([], sym (some-fst h))
  expand_all-Grows fuel (wc ∷ wcs) ps w x w' h =
      elim (Option-cases (expand_from list_projects fuel wc 1 ps w)) [
        | inl out ↦ absurd (cc (rw (out, expand_all) at h))
        | inr (y, e) ↦
            Grows-trans ps y.0 x (expand_from-Grows fuel wc 1 ps w y.0 y.1 e)
              (expand_all-Grows fuel wcs y.0 y.1 x w' (rw (e, expand_all) at h))
      ]

  -- No call for a page succeeds.
  abbrev IsDown : Type 0
  IsDown =
      (o : ListProjectsOptions) (u : W)
      → ((e : Error) × ((list_projects o u).0 ≡ failed e))
        ⊎ ((response : Response) × (e : Error) × ((list_projects o u).0 ≡ refused response e))

  expand_from-down :
      (fuel : ℕ) (wc : WildcardConfig) (ps : List String) (w : W)
      → IsDown
      → (w' : W) × (expand_from list_projects (suc fuel) wc 1 ps w ≡ some (ps, w'))
  unfolding expand_from expand_reply
  expand_from-down fuel wc ps w down =
      let o : ListProjectsOptions = record {
        search = wc.search;
        archived = wc.archived;
        per_page = 100;
        page = 1;
      } in
      elim (down o w) [
        | inl (e, h) ↦ ((list_projects o w).1, rw (h, expand_reply))
        | inr (response, e, h) ↦ ((list_projects o w).1, rw (h, expand_reply))
      ]

  expand_all-down :
      (fuel : ℕ) (wcs : List WildcardConfig) (ps : List String) (w : W)
      → IsDown
      → (w' : W) × (expand_all list_projects (suc fuel) wcs ps w ≡ some (ps, w'))
  unfolding expand_all
  expand_all-down fuel [] ps w down = (w, refl)
  expand_all-down fuel (wc ∷ wcs) ps w down =
      let (w₁, e) = expand_from-down fuel wc ps w down in
      let (w₂, h) = expand_all-down fuel wcs ps w₁ down in (w₂, rw (e, expand_all) h)

  -- Where no call for a page succeeds, the explicit projects are discovered all the same, and it is
  -- an error only if there are none.
  pub discover_unreachable :
      (fuel : ℕ) (cfg : Config) (w : W)
      → ((o : ListProjectsOptions) (u : W)
          → ((e : Error) × ((list_projects o u).0 ≡ failed e))
            ⊎ ((response : Response) × (e : Error) × ((list_projects o u).0 ≡ refused response e)))
      → (w' : W) × (discover_projects list_projects (suc fuel) cfg w
          ≡ some (require_projects (add_paths [] (explicit_names cfg.projects)), w'))
  unfolding discover_projects
  discover_unreachable fuel cfg w down =
      let (w', e) =
        expand_all-down fuel cfg.wildcards (add_paths [] (explicit_names cfg.projects)) w down in
      (w', rw (e, discover_projects))

  require_projects-ok : (ps x : List String) → require_projects ps ≡ ok x → (ps ≡ x) × (x ≢ [])
  unfolding require_projects
  require_projects-ok [] x h = absurd (cc h)
  require_projects-ok (p ∷ ps) x h = (cc h, λ z. cc (h, z))

  discover-Grows :
      (fuel : ℕ) (cfg : Config) (w w' : W) (projects : List String)
      → discover_projects list_projects fuel cfg w ≡ some (ok projects, w')
      → Grows (add_paths [] (explicit_names cfg.projects)) projects × (projects ≢ [])
  unfolding discover_projects
  discover-Grows fuel cfg w w' projects h =
      let start = add_paths [] (explicit_names cfg.projects) in
      elim (Option-cases (expand_all list_projects fuel cfg.wildcards start w)) [
        | inl out ↦ absurd (cc (rw (out, discover_projects) at h))
        | inr (y, e) ↦
            let (same, some_project) =
              require_projects-ok y.0 projects (ok-of-some (rw (e, discover_projects) at h)) in
            (
              subst (Grows start) same (expand_all-Grows fuel cfg.wildcards start w y.0 y.1 e),
              some_project,
            )
      ]

  -- If the discovery returns projects, there is one at least, none stands twice, every explicit one is
  -- among them, and they begin with the explicit ones in their order, each kept once.
  pub discover_exact :
      (fuel : ℕ) (cfg : Config) (w w' : W) (projects : List String)
      → discover_projects list_projects fuel cfg w ≡ some (ok projects, w')
      → (projects ≢ [])
        × IsDistinct projects
        × ((name : String)
            → contains (explicit_names cfg.projects) name ≡ true
            → contains projects name ≡ true)
        × ((more : List String) × (projects ≡ add_paths [] (explicit_names cfg.projects) ++ more))
  discover_exact fuel cfg w w' projects h =
      let names = explicit_names cfg.projects in
      let ((found, grown), some_project) = discover-Grows fuel cfg w w' projects h in
      let (more, prefix) = add_paths-prefix (add_paths [] names) found in
      (
        some_project,
        rw grown
            (IsDistinct-add_paths (add_paths [] names) found (IsDistinct-add_paths [] names tt)),
        λ name named.
            unfold contains in rw (grown, contains-add_paths, contains-add_paths) (rw named),
        (more, grown ∙ prefix),
      )

  expand_from-owner :
      (fuel : ℕ) (wc : WildcardConfig) (owner : OwnerConfig) (page : ℕ) (ps : List String) (w : W)
      → expand_from list_projects fuel (record wc { owner = owner }) page ps w
        ≡ expand_from list_projects fuel wc page ps w
  unfolding expand_from
  expand_from-owner zero wc owner page ps w = refl
  expand_from-owner (suc fuel) wc owner page ps w =
      let (reply, w') =
        list_projects
          (record { search = wc.search; archived = wc.archived; per_page = 100; page = page }) w in
      ap (λ again. expand_reply again reply ps w')
        (fun_ext λ k. fun_ext λ qs. fun_ext λ u. expand_from-owner fuel wc owner k qs u)

  -- The same wildcards with other owners.
  abbrev pub reown : (WildcardConfig → OwnerConfig) → List WildcardConfig → List WildcardConfig
  reown owner [] = []
  reown owner (wc ∷ wcs) = record wc { owner = owner wc } ∷ reown owner wcs

  expand_all-owner :
      (fuel : ℕ) (owner : WildcardConfig → OwnerConfig) (wcs : List WildcardConfig)
      (ps : List String) (w : W)
      → expand_all list_projects fuel (reown owner wcs) ps w
        ≡ expand_all list_projects fuel wcs ps w
  unfolding expand_all
  expand_all-owner fuel owner [] ps w = refl
  expand_all-owner fuel owner (wc ∷ wcs) ps w =
      elim (Option-cases (expand_from list_projects fuel wc 1 ps w)) [
        | inl out ↦ rw (expand_from-owner fuel wc (owner wc) 1 ps w, out, expand_all)
        | inr (y, e) ↦
            rw (expand_from-owner fuel wc (owner wc) 1 ps w, e, expand_all)
              (expand_all-owner fuel owner wcs y.0 y.1)
      ]

  -- The owners of the wildcards have no effect on what is discovered.
  pub discover_ignores_owner :
      (fuel : ℕ) (owner : WildcardConfig → OwnerConfig) (cfg : Config) (w : W)
      → discover_projects list_projects fuel
          (record cfg { wildcards = reown owner cfg.wildcards })
          w
        ≡ discover_projects list_projects fuel cfg w
  unfolding discover_projects
  discover_ignores_owner fuel owner cfg w = rw (
    expand_all-owner fuel owner cfg.wildcards (add_paths [] (explicit_names cfg.projects)) w,
    discover_projects,
  )
