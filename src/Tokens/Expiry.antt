-- ===== src/Tokens/Expiry.antt =====
-- The expiry that a token is shown with.
use canvas_watcher.Base.{
  ℕ, ◌+◌, ◌-◌, ◌*◌, ◌≤◌, ◌<◌, true, false, Option, none, some, [], ◌∷◌, Text, codes, ◌==◌, text_eq,
  nat_eq, text_beq, text_beq_refl, text_beq_iff, strip, ◌≡◌, refl, ap, ◌∙◌, arith, All, Bool-cases,
  inl, inr,
}
use canvas_watcher.Changes.Json.{Json, null, string, Fields, end_fields, field, get}
use canvas_watcher.Changes.Release.{has_key}
use canvas_watcher.Tokens.Lifecycle
use canvas_watcher.Tokens.Lifecycle.{
  Dates, aware, NewPat, Lifecycle, CanvasExpiration, status_at, replace_z, put, get_or, day,
  days_of, new_pat_metadata, lifecycle_payload, parse_expiration, ExpirationState, state_expired,
  state_critical, state_urgent, state_warning, state_normal, state_unknown,
}

get-put : (k : Text) (v : Json) (fs : Fields) → get k (put k v fs) ≡ v
unfolding get put text_beq
get-put k v end_fields = rw (text_beq_refl k) refl
get-put k v (field j x fs) = elim (Bool-cases (j == k)) [
  | inl e ↦ ground (arith, e)
  | inr e ↦ ground (arith, e, get-put k v fs)
]

has_key-put : (k : Text) (v : Json) (fs : Fields) → has_key k (put k v fs) ≡ true
unfolding has_key put text_beq
has_key-put k v end_fields = rw (text_beq_refl k) refl
has_key-put k v (field j x fs) = elim (Bool-cases (j == k)) [
  | inl e ↦ ground (arith, e)
  | inr e ↦ ground (arith, e, has_key-put k v fs)
]

get-put_other :
    (k j : Text) (v : Json) (fs : Fields) → (j == k) ≡ false → get k (put j v fs) ≡ get k fs
unfolding get put
get-put_other k j v end_fields h = rw h refl
get-put_other k j v (field i x fs) h = elim (Bool-cases (i == j)) [
  | inl e ↦
      let other : (i == k) ≡ false = ap (λ t. t == k) ((text_beq_iff i j).0 e) ∙ h in
      ground (arith, e, other)
  | inr e ↦ ground (arith, e, get-put_other k j v fs h)
]

replace_z_none : (t : Text) → All (λ c. (c == 90) ≡ false) t → replace_z t ≡ t
unfolding replace_z
replace_z_none [] h = refl
replace_z_none (c ∷ t) h = rw (h.0, replace_z_none t h.1) refl

-- A day begun counts as a day.
days_of_bounds :
    (expiry now : ℕ)
    → now < expiry
    → (expiry - now ≤ days_of expiry now * day) × (days_of expiry now * day < expiry - now + day)
days_of_bounds expiry now h = (omega arith, omega arith)

module _ (lib : Dates) where
  abbrev pub given : NewPat → Option ℕ
  given p = Lifecycle.expiry_of lib p.exact_expires_at p.expiration_date

  -- What is shown of an expiry.
  abbrev pub shown : NewPat → CanvasExpiration → Lifecycle
  shown p status = record {
    issued_at = null;
    activated_at = string (lib.isoformat p.now);
    expires_at = status.expires_at;
    expiration_source =
        string
          (Lifecycle.value_of (Lifecycle.source_of lib p p.exact_expires_at p.expiration_date));
    days_remaining = status.days_remaining;
    expiration_state = status.state;
  }

  -- A key that the last two entries do not write.
  get-sourced :
      (k : Text) (p : NewPat)
      → (codes "expiration_lifecycle_id" == k) ≡ false
      → (codes "expiration_source" == k) ≡ false
      → get k (new_pat_metadata lib p) ≡ get k (Lifecycle.expiring lib p)
  unfolding new_pat_metadata
  get-sourced k p h i =
      get-put_other k (codes "expiration_lifecycle_id") (string p.lifecycle_id)
        (Lifecycle.sourced lib p) h
      ∙ get-put_other k (codes "expiration_source") _ (Lifecycle.expiring lib p) i

  get-expiring :
      (k : Text) (p : NewPat)
      → (codes "expires_at" == k) ≡ false
      → get k (Lifecycle.expiring lib p) ≡ get k (Lifecycle.activated lib p)
  get-expiring k p h = get-put_other k (codes "expires_at") _ (Lifecycle.activated lib p) h

  issued_at_lem : (p : NewPat) → get (codes "issued_at") (new_pat_metadata lib p) ≡ null
  unfolding text_beq
  issued_at_lem p =
      get-sourced (codes "issued_at") p refl refl
      ∙ get-expiring (codes "issued_at") p refl
      ∙ get-put_other (codes "issued_at") (codes "activated_at") _ (Lifecycle.issued lib p) refl
      ∙ get-put (codes "issued_at") null (Lifecycle.values_of p.existing)

  activated_at_lem :
      (p : NewPat)
      → get (codes "activated_at") (new_pat_metadata lib p) ≡ string (lib.isoformat p.now)
  unfolding text_beq
  activated_at_lem p =
      get-sourced (codes "activated_at") p refl refl
      ∙ get-expiring (codes "activated_at") p refl
      ∙ get-put (codes "activated_at") _ (Lifecycle.issued lib p)

  expires_at_lem :
      (p : NewPat)
      → get (codes "expires_at") (new_pat_metadata lib p) ≡ Lifecycle.text_or_null lib (given p)
  unfolding text_beq
  expires_at_lem p =
      get-sourced (codes "expires_at") p refl refl
      ∙ get-put (codes "expires_at") _ (Lifecycle.activated lib p)

  abbrev source_text : NewPat → Json
  source_text p =
      string (Lifecycle.value_of (Lifecycle.source_of lib p p.exact_expires_at p.expiration_date))

  has_key-put_other :
      (k j : Text) (v : Json) (fs : Fields) → has_key k fs ≡ true → has_key k (put j v fs) ≡ true
  unfolding has_key put
  has_key-put_other k j v end_fields h = cc h
  has_key-put_other k j v (field i x fs) h = elim (Bool-cases (i == j)) [
    | inl e ↦ ground (arith, e, h)
    | inr e ↦ elim (Bool-cases (i == k)) [
      | inl f ↦ ground (arith, e, f)
      | inr f ↦ ground (arith, e, f, h, has_key-put_other k j v fs)
    ]
  ]

  expiration_source_lem :
      (p : NewPat) (d : Json)
      → get_or (codes "expiration_source") d (new_pat_metadata lib p) ≡ source_text p
  unfolding get_or new_pat_metadata text_beq
  expiration_source_lem p d =
      rw
        (has_key-put_other (codes "expiration_source") (codes "expiration_lifecycle_id")
          (string p.lifecycle_id) (Lifecycle.sourced lib p)
          (has_key-put (codes "expiration_source") (source_text p) (Lifecycle.expiring lib p)))
        (get-put_other (codes "expiration_source") (codes "expiration_lifecycle_id")
            (string p.lifecycle_id) (Lifecycle.sourced lib p) refl
          ∙ get-put (codes "expiration_source") (source_text p) (Lifecycle.expiring lib p))

  -- What Python's `isoformat` prints of a moment in UTC has no Z, is not blank, and is read again.
  pub record Reads : Type 0 where
    pub no_z : (m : ℕ) → All (λ c. (c == 90) ≡ false) (lib.isoformat m)
    pub not_blank : (m : ℕ) → Lifecycle.is_blank (strip (lib.isoformat m)) ≡ false
    pub read : (m : ℕ) → lib.fromisoformat (lib.isoformat m) ≡ some (aware m)

  parse_expiration-text_or_null :
      Reads → (o : Option ℕ) → parse_expiration lib (Lifecycle.text_or_null lib o) ≡ o
  unfolding parse_expiration
  parse_expiration-text_or_null r none = refl
  parse_expiration-text_or_null r (some m) =
      rw (r.not_blank m, replace_z_none (lib.isoformat m) (r.no_z m), r.read m) refl

  -- A new token is shown with the expiry it was given, as that is counted at the time, and with none
  -- where none was given, whatever was known of an older token. The texts of times are read as they
  -- were printed.
  pub lifecycle_payload-new_pat_metadata :
      (r : Reads) (p : NewPat) (now : ℕ)
      → lifecycle_payload lib (some (new_pat_metadata lib p)) now
        ≡ shown p (status_at (given p) now)
  unfolding lifecycle_payload
  lifecycle_payload-new_pat_metadata r p now =
      rw
        (
          issued_at_lem p,
          activated_at_lem p,
          expires_at_lem p,
          parse_expiration-text_or_null r (given p),
          expiration_source_lem p (string (codes "UNKNOWN")),
        )
        refl
