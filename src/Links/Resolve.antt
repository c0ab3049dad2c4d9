-- ===== src/Links/Resolve.antt =====
-- backend/app/services/task_links.py. `urlsplit`, `unquote` and `str.lower` are libraries'; the rows
-- of the query are given in its order.
use canvas_watcher.Base.{
  ℕ, Bool, true, false, not, ◌&&◌, ◌||◌, Option, none, some, List, [], ◌∷◌, ◌++◌, Text, codes, ◌==◌,
  text_eq, nat_eq, ltb, strip, any, starts_with, if◌then◌else◌,
}
use canvas_watcher.Changes.Json.{Json, string, object, Fields, end_fields, get}
use canvas_watcher.Gateway.Routes.Http.{segments}

-- What `urlsplit` finds, where its port can be read.
pub record Parts : Type 0 where
  pub scheme : Text
  pub hostname : Text
  pub username : Text
  pub password : Text
  pub path : Text
  pub query : Text
  pub fragment : Text

pub record UrlLibrary : Type 0 where
  -- `none` where it raises
  pub urlsplit : Text → Option Parts
  pub unquote : Text → Text
  pub str_lower : Text → Text

pub record SourceItem : Type 0 where
  pub source_type : Text
  pub item_type : Text
  pub url : Json

-- A candidate of `_resolve`; the ranks are one more than the code's, which begin at -1.
pub record Candidate : Type 0 where
  pub rank : ℕ
  pub link : Text
  pub is_assignment : Bool

abbrev pub is_empty : Text → Bool
is_empty [] = true
is_empty (c ∷ t) = false

module _ (lib : UrlLibrary) where
  -- The tests on the parts of a URL.
  unfoldable pub clean_parts : Parts → Bool
  unfolding starts_with any segments
  clean_parts p =
      let path = lib.str_lower (lib.unquote p.path) in
      (p.scheme == codes "https" || p.scheme == codes "http")
      && not (is_empty p.hostname)
      && is_empty p.username
      && is_empty p.password
      && is_empty p.query
      && is_empty p.fragment
      && not (starts_with path (codes "/api/"))
      && not (any (λ s. s == codes "download" || s == codes "preview") (segments path))

  abbrev pub clean_link : Option Parts → Text → Option Text
  clean_link none t = none
  clean_link (some p) t = if clean_parts p then some t else none

  abbrev pub safe_text : Text → Option Text
  safe_text [] = none
  safe_text (c ∷ t) =
      if any (λ x. ltb x 32 || x == 92) (c ∷ t)
      then none
      else clean_link (lib.urlsplit (c ∷ t)) (c ∷ t)

  unfoldable pub safe_task_url : Json → Option Text
  unfolding strip any clean_parts
  safe_task_url (string t) = safe_text (strip t)
  safe_task_url _ = none

  abbrev pub when_given : ℕ → Bool → Option Text → List Candidate
  when_given rank is_assignment none = []
  when_given rank is_assignment (some t) =
      record { rank = rank; link = t; is_assignment = is_assignment } ∷ []

  abbrev pub facts_of : Json → Fields
  facts_of (object fs) = fs
  facts_of _ = end_fields

  -- The link of the provider's own facts.
  abbrev pub provider_link : SourceItem → Fields → List Candidate
  provider_link item fs =
      if (item.source_type == codes "gradescope" || item.source_type == codes "prairielearn")
        && (item.item_type == codes "assignment" || item.item_type == codes "assessment")
      then when_given 0 true (
          safe_task_url
            (get (codes "direct_assignment_url") (facts_of (get (codes "provider_facts") fs))))
      else []

  abbrev pub website_link : SourceItem → Fields → List Candidate
  website_link item fs =
      if item.source_type == codes "website"
      then when_given 2 true (safe_task_url (get (codes "assignment_resource_url") fs))
      else []

  abbrev pub is_link : Text → Option Text → Bool
  is_link t none = false
  is_link t (some u) = u == t

  abbrev pub exact : SourceItem → Fields → Text → Bool
  exact item fs t =
      item.item_type == codes "assignment"
      && not (is_link t (safe_task_url (get (codes "schedule_url") fs)))

  abbrev pub rank_of : SourceItem → Bool → ℕ
  rank_of item is_exact =
      if is_exact then (if item.source_type == codes "canvas" then 1 else 2) else 3

  abbrev pub given_link : SourceItem → Fields → Option Text → List Candidate
  given_link item fs none = []
  given_link item fs (some t) =
      let e = exact item fs t in record { rank = rank_of item e; link = t; is_assignment = e } ∷ []

  abbrev pub row_links : SourceItem → Fields → List Candidate
  row_links item fs =
      provider_link item fs
      ++ (website_link item fs
          ++ (given_link item fs (safe_task_url (get (codes "html_url") fs))
              ++ given_link item fs (safe_task_url item.url)))

  abbrev pub data_of : Option Fields → Fields
  data_of none = end_fields
  data_of (some fs) = fs

  unfoldable pub candidates : List (SourceItem × Option Fields) → List Candidate
  unfolding safe_task_url get
  candidates [] = []
  candidates ((item, snapshot) ∷ rows) = row_links item (data_of snapshot) ++ candidates rows

  -- `min(candidates, key=rank)`: the first of the least rank
  unfoldable pub least : Candidate → List Candidate → Candidate
  least c [] = c
  least c (d ∷ ds) = let e = least d ds in if ltb e.rank c.rank then e else c

  abbrev pub least_of : List Candidate → Option Candidate
  least_of [] = none
  least_of (c ∷ cs) = some (least c cs)

  -- `_resolve`: the link and whether it is an assignment's; `none` for "unavailable".
  unfoldable pub resolve : List (SourceItem × Option Fields) → Option Candidate
  unfolding candidates least
  resolve rows = least_of (candidates rows)
