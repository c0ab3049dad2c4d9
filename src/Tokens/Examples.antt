-- ===== src/Tokens/Examples.antt =====
-- The expiry of a token at concrete inputs.
use canvas_watcher.Base.{
  ℕ, ◌+◌, ◌-◌, ◌*◌, nat_eq, Option, none, some, [], ◌∷◌, Text, codes, ◌≡◌, refl, strip, arith, ap,
}
use canvas_watcher.Changes.Json.{string, end_fields, field}
use canvas_watcher.Tokens.Lifecycle.{
  Dates, DateTime, aware, NewPat, new_pat_metadata, lifecycle_payload, status_at, day, state_urgent,
}
use canvas_watcher.Tokens.Expiry.{Reads, shown, lifecycle_payload-new_pat_metadata}

-- A moment printed as one character between two others.
abbrev printed : ℕ → Text
printed m = 97 ∷ (m + 200) ∷ 97 ∷ []

abbrev scanned : Text → Option DateTime
scanned (a ∷ c ∷ b ∷ []) = some (aware (c - 200))
scanned _ = none

abbrev dates : Dates
dates = record {
  fromisoformat = scanned;
  isoformat = printed;
  in_uiuc = λ m. m;
  last_of = λ d. d * day + day - 1;
}

dates-Reads : Reads dates
unfolding strip
dates-Reads = record {
  no_z = λ m. (refl, (ground arith, (refl, tt)));
  not_blank = λ m. refl;
  read = λ m. ap (λ k. some (aware k)) (omega arith);
}

-- A token entered by hand for the end of the third day, over an older one that knew its expiry.
abbrev renewed_pat : NewPat
renewed_pat = record {
  existing = some (field (codes "expires_at") (string (printed 5)) end_fields);
  expiration_date = some 2;
  now = 7;
  given_source = none;
  exact_expires_at = none;
  lifecycle_id = codes "id";
}

lifecycle_payload-new_pat_metadata_example :
    lifecycle_payload dates (some (new_pat_metadata dates renewed_pat)) (day + 1)
    ≡ shown dates renewed_pat (status_at (some (3 * day - 1)) (day + 1))
lifecycle_payload-new_pat_metadata_example =
    lifecycle_payload-new_pat_metadata dates dates-Reads renewed_pat (day + 1)

two_days_left : (status_at (some (3 * day - 1)) (day + 1)).state ≡ state_urgent
unfolding status_at
two_days_left = refl
