-- ===== src/Links/Examples.antt =====
-- The link of a task at concrete inputs.
use canvas_watcher.Base.{
  true, Option, none, some, List, [], ◌∷◌, codes, ◌≡◌, refl, strip, any, starts_with, text_beq,
}
use canvas_watcher.Changes.Json.{string, end_fields, Fields, get}
use canvas_watcher.Gateway.Routes.Http.{segments}
use canvas_watcher.Links.Resolve.{
  Parts, UrlLibrary, SourceItem, Candidate, clean_parts, safe_task_url, candidates, least, resolve,
}
use canvas_watcher.Links.Safe.{Safe, resolve-Safe}

abbrev page : Parts
page = record {
  scheme = codes "https";
  hostname = codes "canvas.edu";
  username = [];
  password = [];
  path = codes "/courses/1";
  query = [];
  fragment = [];
}

abbrev library : UrlLibrary
library = record { urlsplit = λ t. some page; unquote = λ t. t; str_lower = λ t. t }

abbrev syllabus : SourceItem
syllabus = record {
  source_type = codes "website";
  item_type = codes "page";
  url = string (codes " https://canvas.edu/courses/1 ");
}

abbrev homework : SourceItem
homework = record syllabus { source_type = codes "canvas"; item_type = codes "assignment" }

abbrev rows : List (SourceItem × Option Fields)
rows = (syllabus, none) ∷ (homework, some end_fields) ∷ []

abbrev chosen : Candidate
chosen = record { rank = 1; link = codes "https://canvas.edu/courses/1"; is_assignment = true }

resolve_rows : resolve library rows ≡ some chosen
unfolding resolve candidates least safe_task_url clean_parts segments strip any starts_with get
    text_beq
resolve_rows = refl

resolve-Safe_example : Safe library (codes "https://canvas.edu/courses/1")
resolve-Safe_example = resolve-Safe library rows chosen resolve_rows
