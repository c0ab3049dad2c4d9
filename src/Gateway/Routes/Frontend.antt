-- ===== src/Gateway/Routes/Frontend.antt =====
-- identity-gateway/aw_gateway/main.py: the routes of the frontend's files.
use canvas_watcher.Base.{
  ℕ, Bool, true, false, not, ◌&&◌, ◌||◌, Option, none, some, [], ◌∷◌, ◌++◌, Text, codes, text_eq,
  nat_eq, arith, if◌then◌else◌, starts_with, contains, drop_text, Option-cases, Bool-cases, inl,
  inr, ◌≡◌, refl,
}
use canvas_watcher.Gateway.Identity.Schema.{User, bootstrap, normal, Db, is_bootstrap}
use canvas_watcher.Gateway.Identity.Security.{Security}
use canvas_watcher.Gateway.Identity.Accounts.{is_preview}
use canvas_watcher.Gateway.Identity.Sessions.{session}
use canvas_watcher.Gateway.Routes.Http.{
  Request, Libraries, Config, Answer, json_error, redirect, asset, document, is_given, current,
}

-- `text.replace(old, new, 1)`, of an `old` that is not empty
unfoldable pub replace_first : Text → Text → Text → Text
unfolding starts_with
replace_first old new [] = []
replace_first old new (c ∷ t) =
    let rest = replace_first old new t in
    if starts_with (c ∷ t) old then new ++ drop_text old (c ∷ t) else c ∷ rest

abbrev pub head_end : Text
head_end = codes "</head>"

abbrev pub preview_mark : Text
preview_mark = codes "<meta name=\"aw-preview\" content=\"true\">"

abbrev pub slash_redirect : Answer
slash_redirect = redirect (codes "/watcher/")

module _ (lib : Libraries) (cfg : Config) (sec : Security) where
  unfoldable pub index_page : Bool → Option Text → Answer
  unfolding replace_first contains
  index_page preview none = json_error (codes "FRONTEND_NOT_READY") 503
  index_page preview (some text) =
      if not preview
      then document text
      else if not (contains head_end text)
      then json_error (codes "FRONTEND_NOT_READY") 503
      else document (replace_first head_end (preview_mark ++ head_end) text)

  unfoldable pub frontend : ℕ → Request → Text → Db → Answer × Db
  unfolding session index_page is_preview starts_with
  frontend now req rest db = elim (current lib cfg sec now req db) [
    | none ↦ (redirect (codes "/watcher/login"), db)
    | some (user, kind) ↦
        if is_bootstrap kind
        then (redirect (codes "/watcher/change-password"), db)
        else if is_given rest && lib.static_file rest
        then (asset rest (starts_with rest (codes "assets/")), db)
        else (index_page (is_preview user.id db) lib.index_html, db)
  ]

  starts_append : (m t : Text) → starts_with (m ++ t) m ≡ true
  unfolding starts_with
  starts_append [] t = refl
  starts_append (c ∷ m) t = ground (arith, starts_append m t)

  contains_start : (m t : Text) → starts_with t m ≡ true → contains m t ≡ true
  unfolding contains
  contains_start m [] h = h
  contains_start m (c ∷ t) h = ground (arith, h)

  append_append : (a b c : Text) → (a ++ b) ++ c ≡ a ++ (b ++ c)
  append_append [] b c = refl
  append_append (x ∷ a) b c = ground (arith, append_append a b c)

  contains-replace_first :
      (mark old t : Text)
      → contains old t ≡ true
      → starts_with [] old ≡ false
      → contains mark (replace_first old (mark ++ old) t) ≡ true
  unfolding contains replace_first
  contains-replace_first mark old [] h k = ground (arith, h, k)
  contains-replace_first mark old (c ∷ t) h k = elim (Bool-cases (starts_with (c ∷ t) old)) [
    | inl e ↦ rw e (
        rw (append_append mark old (drop_text old (c ∷ t)))
          (contains_start mark _ (starts_append mark (old ++ drop_text old (c ∷ t)))))
    | inr e ↦ ground (arith, h, e, contains-replace_first mark old t, k)
  ]

  -- A document of the frontend goes to a normal session only, and that of a preview account has the
  -- mark of the preview.
  pub frontend-document :
      (now : ℕ) (req : Request) (rest text : Text) (db : Db)
      → (frontend now req rest db).0 ≡ document text
      → (u : User) × (session sec now req.aw_session db ≡ some (u, normal))
        × ((not (is_preview u.id db) || contains preview_mark text) ≡ true)
  unfolding frontend
  frontend-document now req rest text db h = elim (Option-cases (current lib cfg sec now req db)) [
    | inl e ↦ ground (arith, e, h)
    | inr ((u, bootstrap), e) ↦ ground (arith, e, h)
    | inr ((u, normal), e) ↦
        (u, e, page_mark (is_preview u.id db) lib.index_html text (ground (arith, e, h)))
  ]
    where
      page_mark :
          (preview : Bool) (index : Option Text) (text : Text)
          → index_page preview index ≡ document text
          → (not preview || contains preview_mark text) ≡ true
      page_mark preview none text g = unfold index_page in ground (arith, g)
      page_mark false (some s) text g = refl
      page_mark true (some s) text g =
          unfold index_page in ground (arith, g, contains-replace_first preview_mark head_end s)
