-- ===== src/Links/Safe.antt =====
-- The link that a task is shown with.
use canvas_watcher.Base.{
  ◌≢◌, ◌⊎◌, ◌≤◌, text_beq_iff, starts_with, any-false, All-map, ℕ, Bool, true, false, ◌||◌, Option,
  none, some, List, [], ◌∷◌, Text, codes, ◌==◌, text_eq, nat_eq, ltb, any, ◌≡◌, refl, arith, All,
  All-append, if◌then◌else◌, Option-cases, Bool-cases, inl, inr, strip,
}
use mathlib.Core.Path.{subst}
use canvas_watcher.Changes.Json.{Json, null, boolean, number, string, array, object, Fields, get}
use canvas_watcher.Gateway.Routes.Http.{segments}
use canvas_watcher.Links.Resolve
use canvas_watcher.Links.Resolve.{
  Parts, UrlLibrary, SourceItem, Candidate, clean_parts, safe_task_url, candidates, least, resolve,
}

module _ (lib : UrlLibrary) where
  -- A page's address that no credential, no signature and no call of an API stands in.
  pub record Safe (t : Text) : Type 0 where
    pub parts : Parts
    pub split : lib.urlsplit t ≡ some parts
    pub of_web : (parts.scheme ≡ codes "https") ⊎ (parts.scheme ≡ codes "http")
    pub has_host : parts.hostname ≢ []
    pub no_username : parts.username ≡ []
    pub no_password : parts.password ≡ []
    pub no_query : parts.query ≡ []
    pub no_fragment : parts.fragment ≡ []
    pub no_api : starts_with (lib.str_lower (lib.unquote parts.path)) (codes "/api/") ≡ false
    pub no_download :
        All
          (λ s. (s ≢ codes "download") × (s ≢ codes "preview"))
          (segments (lib.str_lower (lib.unquote parts.path)))
    pub printable : All (λ x. (32 ≤ x) × (x ≢ 92)) t

  nothing : (t : Text) → Resolve.is_empty t ≡ true → t ≡ []
  nothing [] h = refl
  nothing (c ∷ t) h = cc h

  something : (t : Text) → Resolve.is_empty t ≡ false → t ≢ []
  something [] h e = cc h
  something (c ∷ t) h e = cc e

  away : (a b s : Text) → (s == a || s == b) ≡ false → (s ≢ a) × (s ≢ b)
  away a b s h = (
    λ e. ground (arith, h, (text_beq_iff s a).1 e),
    λ e. ground (arith, h, (text_beq_iff s b).1 e),
  )

  web :
      (s : Text)
      → (s == codes "https" || s == codes "http") ≡ true
      → (s ≡ codes "https") ⊎ (s ≡ codes "http")
  web s h = elim (Bool-cases (s == codes "https")) [
    | inl e ↦ inl ((text_beq_iff s (codes "https")).0 e)
    | inr e ↦ inr ((text_beq_iff s (codes "http")).0 (ground (arith, e, h)))
  ]

  clean_Safe :
      (s t : Text)
      → any (λ x. ltb x 32 || x == 92) s ≡ false
      → Resolve.clean_link lib (lib.urlsplit s) s ≡ some t
      → Safe t
  unfolding clean_parts
  clean_Safe s t p h = elim (Option-cases (lib.urlsplit s)) [
    | inl e ↦ ground (arith, e, h)
    | inr (parts, e) ↦
        let same : s ≡ t = ground (arith, e, h) in
        let clean : clean_parts lib parts ≡ true = ground (arith, e, h) in
        let path = lib.str_lower (lib.unquote parts.path) in
        record {
          parts = parts;
          split = rw⁻¹ same e;
          of_web = web parts.scheme (ground (arith, clean));
          has_host = something parts.hostname (ground (arith, clean));
          no_username = nothing parts.username (ground (arith, clean));
          no_password = nothing parts.password (ground (arith, clean));
          no_query = nothing parts.query (ground (arith, clean));
          no_fragment = nothing parts.fragment (ground (arith, clean));
          no_api = ground (arith, clean);
          no_download =
              All-map (segments path) (λ s. away (codes "download") (codes "preview") s)
                (any-false (λ s. s == codes "download" || s == codes "preview") (segments path)
                  (ground (arith, clean)));
          printable = rw⁻¹ same (
              All-map s (λ x k. (ground (arith, k), ground (arith, k)))
                (any-false (λ x. ltb x 32 || x == 92) s p));
        }
  ]

  safe_text-Safe : (s t : Text) → Resolve.safe_text lib s ≡ some t → Safe t
  safe_text-Safe [] t h = ground (arith, h)
  safe_text-Safe (c ∷ s) t h = elim (Bool-cases (any (λ x. ltb x 32 || x == 92) (c ∷ s))) [
    | inl e ↦ ground (arith, e, h)
    | inr e ↦ clean_Safe (c ∷ s) t e (ground (arith, e, h))
  ]

  safe_task_url-Safe : (j : Json) (t : Text) → safe_task_url lib j ≡ some t → Safe t
  unfolding safe_task_url
  safe_task_url-Safe null t h = ground (arith, h)
  safe_task_url-Safe (boolean b) t h = ground (arith, h)
  safe_task_url-Safe (number n) t h = ground (arith, h)
  safe_task_url-Safe (string s) t h = safe_text-Safe (strip s) t h
  safe_task_url-Safe (array js) t h = ground (arith, h)
  safe_task_url-Safe (object fs) t h = ground (arith, h)

  -- The link of a candidate is a safe one.
  abbrev SafeLink : Candidate → Type 0
  SafeLink c = Safe c.link

  when_given-SafeLink :
      (rank : ℕ) (b : Bool) (o : Option Text)
      → ((t : Text) → o ≡ some t → Safe t)
      → All SafeLink (Resolve.when_given lib rank b o)
  when_given-SafeLink rank b none h = tt
  when_given-SafeLink rank b (some t) h = (h t refl, tt)

  given_link-SafeLink :
      (item : SourceItem) (fs : Fields) (o : Option Text)
      → ((t : Text) → o ≡ some t → Safe t)
      → All SafeLink (Resolve.given_link lib item fs o)
  given_link-SafeLink item fs none h = tt
  given_link-SafeLink item fs (some t) h = (h t refl, tt)

  All-when :
      (b : Bool) (cs : List Candidate) → All SafeLink cs → All SafeLink (if b then cs else [])
  All-when true cs h = h
  All-when false cs h = tt

  row_links-SafeLink :
      (item : SourceItem) (fs : Fields) → All SafeLink (Resolve.row_links lib item fs)
  row_links-SafeLink item fs =
      All-append SafeLink (Resolve.provider_link lib item fs) _
        (All-when _ _ (when_given-SafeLink 0 true _ (safe_task_url-Safe _)))
        (All-append SafeLink (Resolve.website_link lib item fs) _
          (All-when _ _ (when_given-SafeLink 2 true _ (safe_task_url-Safe _)))
          (All-append SafeLink
            (Resolve.given_link lib item fs (safe_task_url lib (get (codes "html_url") fs))) _
            (given_link-SafeLink item fs _ (safe_task_url-Safe _))
            (given_link-SafeLink item fs _ (safe_task_url-Safe item.url))))

  candidates-SafeLink :
      (rows : List (SourceItem × Option Fields)) → All SafeLink (candidates lib rows)
  unfolding candidates
  candidates-SafeLink [] = tt
  candidates-SafeLink ((item, snapshot) ∷ rows) =
      All-append SafeLink (Resolve.row_links lib item (Resolve.data_of lib snapshot)) _
        (row_links-SafeLink item (Resolve.data_of lib snapshot)) (candidates-SafeLink rows)

  least-SafeLink :
      (c : Candidate) (cs : List Candidate)
      → SafeLink c
      → All SafeLink cs
      → SafeLink (least lib c cs)
  unfolding least
  least-SafeLink c [] h k = h
  least-SafeLink c (d ∷ ds) h k = elim (Bool-cases (ltb (least lib d ds).rank c.rank)) [
    | inl e ↦ rw e (least-SafeLink d ds k.0 k.1)
    | inr e ↦ rw e h
  ]

  least_of-SafeLink :
      (cs : List Candidate) (c : Candidate)
      → All SafeLink cs
      → Resolve.least_of lib cs ≡ some c
      → SafeLink c
  least_of-SafeLink [] c h e = ground (arith, e)
  least_of-SafeLink (d ∷ ds) c h e =
      let same : least lib d ds ≡ c = ground (arith, e) in
      subst SafeLink same (least-SafeLink d ds h.0 h.1)

  -- The link that a task is shown with is one of http or https that names a host, has no username,
  -- password, query or fragment, leads to no path below /api/ and to none with a segment download or
  -- preview, and has no control character and no backslash, whatever the rows and the snapshots hold.
  pub resolve-Safe :
      (rows : List (SourceItem × Option Fields)) (c : Candidate)
      → resolve lib rows ≡ some c
      → Safe c.link
  unfolding resolve
  resolve-Safe rows c e = least_of-SafeLink (candidates lib rows) c (candidates-SafeLink rows) e
