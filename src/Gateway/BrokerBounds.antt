-- ===== src/Gateway/BrokerBounds.antt =====
-- The table of capabilities is bounded, and the browser's calls are bound to a user.
use canvas_watcher.Base.{
  ℕ, suc, ◌≤◌, ◌<◌, true, some, [], ◌∷◌, Text, ◌==◌, text_eq, ◌≡◌, arith, inl, inr, Option-cases,
  ltb, length, length-append, select, fetch_one,
}
use canvas_watcher.Base.Table.Rows.{length-select, length-update_where, length-delete_where}
use canvas_watcher.Gateway.Identity.Security.{Security, token_digest}
use canvas_watcher.Gateway.Broker.{
  BrokerMapping, Payload, BackendTicket, Rows, matches, lookup, text_or_empty, put, read_ticket,
  create, new_mapping, browser_control, broker_claim, exchange, broker_completion, finish,
}

length-put : (row : BrokerMapping) (rows : Rows) → length (put row rows) ≤ suc (length rows)
unfolding put
length-put row rows = ground (
  arith,
  length-append rows (row ∷ []),
  length-update_where (λ r. r.outer_id == row.outer_id) (λ r. row) rows,
)

-- No call makes the table of capabilities longer than 64, if it was not longer before.
pub rows_bounded :
    (sec : Security) (now : ℕ) (b : BackendTicket) (p : Payload) (user_id : Text) (slot : ℕ)
    (t1 t2 t3 : Text) (rows : Rows)
    → length rows ≤ 64
    → (length (create sec now b user_id slot t1 t2 t3 rows).1 ≤ 64)
      × (length (browser_control sec now p user_id rows).1 ≤ 64)
      × (length (broker_claim sec now p rows).1 ≤ 64)
      × (length (exchange sec now p t1 t2 rows).1 ≤ 64)
      × (length (broker_completion sec now p rows).1 ≤ 64)
      × (length (finish now p rows).1 ≤ 64)
unfolding create browser_control broker_claim exchange broker_completion finish
rows_bounded sec now b p user_id slot t1 t2 t3 rows h = (
  elim (Option-cases (read_ticket b)) [
    | inl bad ↦ ground arith
    | inr (t, e) ↦
        let live = select (λ row. ltb now row.deadline) rows in
        ground (
          arith,
          length-select (λ row. ltb now row.deadline) rows,
          length-put (new_mapping sec now t user_id slot t1 t2 t3) live,
        )
  ],
  ground arith,
  ground arith,
  elim (Option-cases (lookup now p rows)) [
    | inl missing ↦ ground arith
    | inr (row, e) ↦ ground (
      arith,
      length-update_where (λ r. r.outer_id == row.outer_id)
          (λ r. record r { inner_exchange = t1; exchange_hash = token_digest sec t2 }) rows,
    )
  ],
  ground arith,
  elim (Option-cases (lookup now p rows)) [
    | inl missing ↦ ground arith
    | inr (row, e) ↦ ground (arith, length-delete_where (λ r. r.outer_id == row.outer_id) rows)
  ],
)

-- A mapping that a request finds is stored, has not expired and matches the request.
pub lookup_found :
    (now : ℕ) (p : Payload) (rows : Rows) (row : BrokerMapping)
    → lookup now p rows ≡ some row
    → (fetch_one (λ r. r.outer_id == text_or_empty p.challenge_id) rows ≡ some row)
      × (now < row.deadline)
      × (matches row p ≡ true)
unfolding lookup
lookup_found now p rows row h = (ground arith, ground arith, ground arith)
