-- ===== src/Gateway/BrokerTickets.antt =====
-- The tickets and exchange tokens of broker_map.py are good for what they were issued for.
use canvas_watcher.Base.{
  ◌&&◌, ℕ, ◌+◌, Bool, true, false, none, some, List, [], ◌∷◌, Text, ◌==◌, text_eq, ◌≡◌, ◌≢◌, refl,
  text_beq_refl, arith, inl, inr, Option-cases, ltb, any, if◌then◌else◌, select, fetch_one,
  update_where,
}
use canvas_watcher.Base.Table.Rows.{fetch_one-append, fetch_one-any, fetch_one-update_where}
use canvas_watcher.Gateway.Identity.Security.{Security, token_digest, compare_token}
use canvas_watcher.Gateway.Broker.{
  BrokerMapping, Payload, text, passed, browser_control, BackendTicket, OuterTicket, Ticket, Rows,
  ok, err, challenge_invalid, matches, lookup, text_or_empty, put, read_ticket, create, new_mapping,
  proves, broker_claim, exchange, broker_completion, is_set,
}
use canvas_watcher.Gateway.BrokerBounds.{lookup_found}

-- The request of a desktop broker that was handed the ticket.
abbrev pub claim_of : OuterTicket → Payload
claim_of t = record {
  challenge_id = some t.challenge_id;
  instance_id = some t.instance_id;
  provider = some t.provider;
  control_token = none;
  one_time_token = some (text t.one_time_token);
  exchange_token = none;
  rest = [];
}

module _ {A : Type 0} (p : A → Bool) (a : A) where
  fetch_one-overwrite :
      (xs : List A)
      → p a ≡ true
      → any p xs ≡ true
      → fetch_one p (update_where p (λ x. a) xs) ≡ some a
  unfolding fetch_one update_where any
  fetch_one-overwrite [] h e = cc
  fetch_one-overwrite (x ∷ xs) h e = ground (arith, fetch_one-overwrite xs)

fetch-put :
    (row : BrokerMapping) (rows : Rows)
    → fetch_one (λ r. r.outer_id == row.outer_id) (put row rows) ≡ some row
unfolding put fetch_one
fetch-put row rows =
    let p : BrokerMapping → Bool = λ r. r.outer_id == row.outer_id in
    ground (
      arith,
      fetch_one-overwrite p row rows (text_beq_refl row.outer_id),
      fetch_one-append p rows (row ∷ []),
      fetch_one-any p rows,
      text_beq_refl row.outer_id,
    )

-- What a successful `create` leaves: a stored mapping of the caller and its slot.
created :
    (sec : Security) (now : ℕ) (b : BackendTicket) (user_id : Text) (slot : ℕ) (t1 t2 t3 : Text)
    (rows rows' : Rows) (out : OuterTicket)
    → create sec now b user_id slot t1 t2 t3 rows ≡ (ok out, rows')
    → (t : Ticket) × (read_ticket b ≡ some t)
      × (fetch_one (λ r. r.outer_id == t1) rows'
          ≡ some (new_mapping sec now t user_id slot t1 t2 t3))
      × (out.challenge_id ≡ t1)
      × (out.instance_id ≡ t.instance_id)
      × (out.provider ≡ t.provider)
      × (out.one_time_token ≡ t2)
      × (out.control_token ≡ t3)
      × (out.expires_in ≡ t.lifetime)
unfolding create
created sec now b user_id slot t1 t2 t3 rows rows' out h = elim (Option-cases (read_ticket b)) [
  | inl bad ↦ absurd (ground arith)
  | inr (t, e) ↦
      let live = select (λ row. ltb now row.deadline) rows in
      let stored = fetch-put (new_mapping sec now t user_id slot t1 t2 t3) live in
      (
        t,
        e,
        ground (arith, stored),
        ground arith,
        ground arith,
        ground arith,
        ground arith,
        ground arith,
        ground arith,
      )
]

-- A ticket that `create` hands out is claimed for the slot and with the inner ticket that it was
-- created for, until its `expires_in` has passed, and not from then on. No other call intervenes.
pub broker_claim-create :
    (sec : Security) (now later : ℕ) (b : BackendTicket) (user_id : Text) (slot : ℕ)
    (t1 t2 t3 : Text) (rows rows' : Rows) (out : OuterTicket)
    → create sec now b user_id slot t1 t2 t3 rows ≡ (ok out, rows')
    → (t : Ticket) × (read_ticket b ≡ some t)
      × ((broker_claim sec later (claim_of out) rows').0 ≡ (
          if ltb later (now + out.expires_in)
          then ok (
            slot,
            record {
              challenge_id = t.challenge_id;
              instance_id = t.instance_id;
              provider = t.provider;
              token = t.one_time_token;
              rest = [];
            },
          )
          else err challenge_invalid))
unfolding broker_claim lookup matches proves compare_token
broker_claim-create sec now later b user_id slot t1 t2 t3 rows rows' out h =
    let (t, e, stored, c1, c2, c3, c4, c5, c6) =
      created sec now b user_id slot t1 t2 t3 rows rows' out h in
    (
      t,
      e,
      rw (c1, c2, c3, c4, c6)
          (ground (
            arith,
            stored,
            text_beq_refl t1,
            text_beq_refl t.instance_id,
            text_beq_refl t.provider,
            text_beq_refl (token_digest sec t2),
          )),
    )

-- The request of a browser that was handed the ticket.
abbrev pub control_of : OuterTicket → Payload
control_of t = record {
  challenge_id = some t.challenge_id;
  instance_id = some t.instance_id;
  provider = some t.provider;
  control_token = some (text t.control_token);
  one_time_token = none;
  exchange_token = none;
  rest = [];
}

-- With the control token of a ticket that `create` hands out, the user that it was created for
-- controls the attempt of the slot that it was created for, until its `expires_in` has passed, and no
-- other user does at any time. No other call intervenes.
pub browser_control-create :
    (sec : Security) (now later : ℕ) (b : BackendTicket) (user_id caller : Text) (slot : ℕ)
    (t1 t2 t3 : Text) (rows rows' : Rows) (out : OuterTicket)
    → create sec now b user_id slot t1 t2 t3 rows ≡ (ok out, rows')
    → (t : Ticket) × (read_ticket b ≡ some t)
      × ((browser_control sec later (control_of out) caller rows').0 ≡ (
          if ltb later (now + out.expires_in) && user_id == caller
          then ok (
            slot,
            record {
              challenge_id = t.challenge_id;
              instance_id = t.instance_id;
              provider = t.provider;
              token = t.control_token;
              rest = [];
            },
          )
          else err challenge_invalid))
unfolding browser_control lookup matches proves compare_token
browser_control-create sec now later b user_id caller slot t1 t2 t3 rows rows' out h =
    let (t, e, stored, c1, c2, c3, c4, c5, c6) =
      created sec now b user_id slot t1 t2 t3 rows rows' out h in
    (
      t,
      e,
      rw (c1, c2, c3, c5, c6)
          (ground (
            arith,
            stored,
            text_beq_refl t1,
            text_beq_refl t.instance_id,
            text_beq_refl t.provider,
            text_beq_refl (token_digest sec t3),
          )),
    )

exchanged :
    (sec : Security) (now : ℕ) (p : Payload) (inner outer out : Text) (rows rows' : Rows)
    → exchange sec now p inner outer rows ≡ (ok out, rows')
    → (row : BrokerMapping) × (lookup now p rows ≡ some row)
      × (rows'
          ≡ update_where
              (λ r. r.outer_id == row.outer_id)
              (λ r. record r { inner_exchange = inner; exchange_hash = token_digest sec outer })
              rows)
      × (out ≡ outer)
      × (is_set row.exchange_hash ≡ false)
unfolding exchange
exchanged sec now p inner outer out rows rows' h = elim (Option-cases (lookup now p rows)) [
  | inl missing ↦ absurd (ground arith)
  | inr (row, e) ↦ (row, e, ground arith, ground arith, ground arith)
]

-- Where a lookup succeeded before `exchange`, one behind it finds the same mapping with the new
-- exchange token until the deadline.
lookup-exchanged :
    (digest : Text) (now later : ℕ) (p : Payload) (inner : Text) (row : BrokerMapping) (rows : Rows)
    → lookup now p rows ≡ some row
    → lookup later p (
        update_where
          (λ r. r.outer_id == row.outer_id)
          (λ r. record r { inner_exchange = inner; exchange_hash = digest })
          rows)
      ≡ (if ltb later row.deadline
          then some (record row { inner_exchange = inner; exchange_hash = digest })
          else none)
unfolding lookup matches
lookup-exchanged digest now later p inner row rows h =
    let (found, fresh, m) = lookup_found now p rows row h in
    let key : BrokerMapping → Bool = λ r. r.outer_id == text_or_empty p.challenge_id in
    let q : BrokerMapping → Bool = λ r. r.outer_id == row.outer_id in
    let f : BrokerMapping → BrokerMapping =
      λ r. record r { inner_exchange = inner; exchange_hash = digest } in
    rw (fetch_one-update_where key q f rows (λ r. refl))
      (ground (arith, found, m, text_beq_refl row.outer_id))

is_set_of_ne : (t : Text) → t ≢ [] → is_set t ≡ true
is_set_of_ne [] h = absurd (h refl)
is_set_of_ne (c ∷ t) h = refl

-- The token of `exchange` completes the sign-in at the slot of the mapping, with the inner exchange
-- token, until the deadline of the mapping; no other token does, none does from the deadline on, and
-- no second exchange is made. The digest of the token is not empty, and no other call intervenes.
pub broker_completion-exchange :
    (sec : Security) (now later : ℕ) (p : Payload) (inner outer out token inner' outer' : Text)
    (rows rows' : Rows)
    → exchange sec now p inner outer rows ≡ (ok out, rows')
    → token_digest sec outer ≢ []
    → (row : BrokerMapping) × (lookup now p rows ≡ some row)
      × ((broker_completion sec later (record p { exchange_token = some (text token) }) rows').0 ≡ (
          if ltb later row.deadline && token_digest sec token == token_digest sec outer
          then ok (
            row.slot,
            record {
              challenge_id = row.inner_id;
              instance_id = row.instance_id;
              provider = row.provider;
              token = inner;
              rest = passed sec p;
            },
          )
          else err challenge_invalid))
      × (exchange sec later p inner' outer' rows' ≡ (err challenge_invalid, rows'))
broker_completion-exchange sec now later p inner outer out token inner' outer' rows rows' h set =
    let (row, e, after, same, unset) = exchanged sec now p inner outer out rows rows' h in
    (row, e, completes row e after, refused row e after)
  where
    digest : Text
    digest = token_digest sec outer

    now_set : is_set digest ≡ true
    now_set = is_set_of_ne digest set

    completes :
        (row : BrokerMapping)
        → lookup now p rows ≡ some row
        → rows'
          ≡ update_where
              (λ r. r.outer_id == row.outer_id)
              (λ r. record r { inner_exchange = inner; exchange_hash = digest })
              rows
        → (broker_completion sec later (record p { exchange_token = some (text token) }) rows').0
          ≡ (if ltb later row.deadline && token_digest sec token == digest
              then ok (
                row.slot,
                record {
                  challenge_id = row.inner_id;
                  instance_id = row.instance_id;
                  provider = row.provider;
                  token = inner;
                  rest = passed sec p;
                },
              )
              else err challenge_invalid)
    completes row e after =
        unfold broker_completion proves compare_token in
        ground (
          arith,
          now_set,
          lookup-exchanged digest now later (record p { exchange_token = some (text token) }) inner
              row rows (unfold lookup matches in e),
        )

    refused :
        (row : BrokerMapping)
        → lookup now p rows ≡ some row
        → rows'
          ≡ update_where
              (λ r. r.outer_id == row.outer_id)
              (λ r. record r { inner_exchange = inner; exchange_hash = digest })
              rows
        → exchange sec later p inner' outer' rows' ≡ (err challenge_invalid, rows')
    refused row e after =
        unfold exchange in
        ground (arith, now_set, lookup-exchanged digest now later p inner row rows e)
