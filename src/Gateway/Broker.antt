-- ===== src/Gateway/Broker.antt =====
-- identity-gateway/aw_gateway/broker_map.py: capabilities that bind the calls of the desktop broker
-- to one tenant. The dict `rows` is the list of its values, which carry their keys; the random
-- tokens and one reading of the clock are arguments of each call. A part of the identity of a request,
-- or of the backend's ticket, that is missing, or is no text, is `none`: both fail every test alike.
use canvas_watcher.Base.{
  ℕ, ◌+◌, Bool, true, false, ◌&&◌, ◌||◌, Option, none, some, List, [], ◌∷◌, ◌++◌, Text, codes, ◌==◌,
  text_eq, ltb, leb, any, length, if◌then◌else◌, select, fetch_one, delete_where, update_where,
}
use canvas_watcher.Gateway.Identity.Security.{Security, token_digest, compare_token}

pub data BrokerError : Type 0 where
  challenge_invalid broker_busy : BrokerError

pub data Result {ℓ} (A : Type ℓ) : Type ℓ where
  ok : A → Result A
  err : BrokerError → Result A

pub record BrokerMapping : Type 0 where
  pub outer_id : Text
  pub inner_id : Text
  pub instance_id : Text
  pub provider : Text
  pub user_id : Text
  pub slot : ℕ
  pub ticket_hash : Text
  pub inner_ticket : Text
  pub control_hash : Text
  pub inner_control : Text
  pub deadline : ℕ
  pub exchange_hash : Text
  pub inner_exchange : Text

-- An entry of a request: a text, or another value as JSON.
pub data Value : Type 0 where
  text : Text → Value
  other : Text → Value

-- A request of the browser or of the desktop broker; `rest` are its other entries.
pub record Payload : Type 0 where
  pub challenge_id : Option Text
  pub instance_id : Option Text
  pub provider : Option Text
  pub control_token : Option Value
  pub one_time_token : Option Value
  pub exchange_token : Option Value
  pub rest : List (Text × Value)

-- The ticket that the tenant's backend answers, and the one that the gateway hands out.
pub record BackendTicket : Type 0 where
  pub challenge_id : Option Text
  pub instance_id : Option Text
  pub provider : Option Text
  pub one_time_token : Option Text
  pub control_token : Option Text
  pub expires_in : Option ℕ
  pub protocol_version : ℕ

pub record OuterTicket : Type 0 where
  pub challenge_id : Text
  pub instance_id : Text
  pub provider : Text
  pub one_time_token : Text
  pub control_token : Text
  pub expires_in : ℕ
  pub protocol_version : ℕ

-- What is sent on to the tenant: `inner_identity`, the inner token and the passed entries.
pub record Inner : Type 0 where
  pub challenge_id : Text
  pub instance_id : Text
  pub provider : Text
  pub token : Text
  pub rest : List (Text × Value)

abbrev pub Rows : Type 0
Rows = List BrokerMapping

-- The state comes back beside an error too: what was written before a raise stays.
abbrev pub Act {ℓ} : Type ℓ → Type ℓ
Act A = Rows → Result A × Rows

abbrev pub is_text : Option Text → Text → Bool
is_text none t = false
is_text (some s) t = s == t

unfoldable pub matches : BrokerMapping → Payload → Bool
matches row p =
    is_text p.challenge_id row.outer_id
    && is_text p.instance_id row.instance_id
    && is_text p.provider row.provider

abbrev pub text_or_empty : Option Text → Text
text_or_empty none = []
text_or_empty (some t) = t

-- `row is None or row.deadline <= self.clock() or not row.matches(payload)`, negated
abbrev pub usable : ℕ → Payload → Option BrokerMapping → Bool
usable now p none = false
usable now p (some row) = ltb now row.deadline && matches row p

abbrev pub checked : ℕ → Payload → Option BrokerMapping → Option BrokerMapping
checked now p row = if usable now p row then row else none

-- `_lookup`; `none` is the raise.
unfoldable pub lookup : ℕ → Payload → Rows → Option BrokerMapping
unfolding matches
lookup now p rows =
    checked now p (fetch_one (λ row. row.outer_id == text_or_empty p.challenge_id) rows)

abbrev pub good_text : Text → Bool
good_text t = leb 16 (length t) && leb (length t) 256

abbrev pub is_provider : Text → Bool
is_provider p =
    p == codes "canvas" || p == codes "gradescope" || p == codes "prairielearn" || p == codes "all"

-- The fields of a ticket that passes the checks of `create`.
pub record Ticket : Type 0 where
  pub challenge_id : Text
  pub instance_id : Text
  pub provider : Text
  pub one_time_token : Text
  pub control_token : Text
  pub lifetime : ℕ

unfoldable pub good_ticket : Ticket → Bool
good_ticket t =
    good_text t.challenge_id
    && good_text t.instance_id
    && good_text t.one_time_token
    && good_text t.control_token
    && is_provider t.provider
    && ltb 0 t.lifetime
    && leb t.lifetime 240

bind {ℓ κ} : {A : Type ℓ} {B : Type κ} → Option A → (A → Option B) → Option B
bind none f = none
bind (some a) f = f a

-- A provider that is a list or an object is answered alike; the source raises a TypeError there.
unfoldable pub read_ticket : BackendTicket → Option Ticket
unfolding bind good_ticket
read_ticket b = bind b.challenge_id λ challenge_id. bind b.instance_id λ instance_id.
    bind b.provider λ provider. bind b.one_time_token λ one_time_token.
      bind b.control_token λ control_token. bind b.expires_in λ lifetime.
        let t : Ticket = record {
          challenge_id = challenge_id;
          instance_id = instance_id;
          provider = provider;
          one_time_token = one_time_token;
          control_token = control_token;
          lifetime = lifetime;
        } in
        if good_ticket t then some t else none

-- `self.rows[row.outer_id] = row`
unfoldable pub put : BrokerMapping → Rows → Rows
put row rows =
    if any (λ r. r.outer_id == row.outer_id) rows
    then update_where (λ r. r.outer_id == row.outer_id) (λ r. row) rows
    else rows ++ row ∷ []

abbrev pub is_set : Text → Bool
is_set [] = false
is_set (c ∷ t) = true

module _ (sec : Security) where
  abbrev pub new_mapping : ℕ → Ticket → Text → ℕ → Text → Text → Text → BrokerMapping
  new_mapping now t user_id slot outer_id outer_ticket outer_control = record {
    outer_id = outer_id;
    inner_id = t.challenge_id;
    instance_id = t.instance_id;
    provider = t.provider;
    user_id = user_id;
    slot = slot;
    ticket_hash = token_digest sec outer_ticket;
    inner_ticket = t.one_time_token;
    control_hash = token_digest sec outer_control;
    inner_control = t.control_token;
    deadline = now + t.lifetime;
    exchange_hash = [];
    inner_exchange = [];
  }

  abbrev create_with : ℕ → Option Ticket → ℕ → Text → ℕ → Text → Text → Text → Act OuterTicket
  create_with now none version user_id slot outer_id outer_ticket outer_control rows =
      (err challenge_invalid, rows)
  create_with now (some t) version user_id slot outer_id outer_ticket outer_control rows =
      let live = select (λ row. ltb now row.deadline) rows in
      if leb 64 (length live) then (err broker_busy, live) else (
        ok (record {
          challenge_id = outer_id;
          instance_id = t.instance_id;
          provider = t.provider;
          one_time_token = outer_ticket;
          control_token = outer_control;
          expires_in = t.lifetime;
          protocol_version = version;
        }),
        put (new_mapping now t user_id slot outer_id outer_ticket outer_control) live,
      )

  unfoldable pub create : ℕ → BackendTicket → Text → ℕ → Text → Text → Text → Act OuterTicket
  create now b user_id slot outer_id outer_ticket outer_control =
      create_with now (read_ticket b) b.protocol_version user_id slot outer_id outer_ticket
        outer_control

  abbrev inner_identity : BrokerMapping → Text → List (Text × Value) → Inner
  inner_identity row token rest = record {
    challenge_id = row.inner_id;
    instance_id = row.instance_id;
    provider = row.provider;
    token = token;
    rest = rest;
  }

  -- `isinstance(token, str) and compare_token(token, expected)`
  unfoldable pub proves : Option Value → Text → Bool
  unfolding compare_token
  proves none expected = false
  proves (some (other v)) expected = false
  proves (some (text token)) expected = compare_token sec token expected

  abbrev answer : Bool → ℕ × Inner → Act (ℕ × Inner)
  answer true r rows = (ok r, rows)
  answer false r rows = (err challenge_invalid, rows)

  unfoldable pub browser_control : ℕ → Payload → Text → Act (ℕ × Inner)
  browser_control now p user_id rows = elim (lookup now p rows) [
    | none ↦ (err challenge_invalid, rows)
    | some row ↦
        answer (row.user_id == user_id && proves p.control_token row.control_hash)
          (row.slot, inner_identity row row.inner_control []) rows
  ]

  unfoldable pub broker_claim : ℕ → Payload → Act (ℕ × Inner)
  broker_claim now p rows = elim (lookup now p rows) [
    | none ↦ (err challenge_invalid, rows)
    | some row ↦
        answer (proves p.one_time_token row.ticket_hash)
          (row.slot, inner_identity row row.inner_ticket []) rows
  ]

  -- `outer_exchange` is the issued token.
  unfoldable pub exchange : ℕ → Payload → Text → Text → Act Text
  exchange now p inner_exchange outer_exchange rows =
      if ltb (length inner_exchange) 16
      then (err challenge_invalid, rows)
      else elim (lookup now p rows) [
        | none ↦ (err challenge_invalid, rows)
        | some row ↦ if is_set row.exchange_hash then (err challenge_invalid, rows) else (
          ok outer_exchange,
          update_where (λ r. r.outer_id == row.outer_id)
              (λ r. record r {
                inner_exchange = inner_exchange;
                exchange_hash = token_digest sec outer_exchange;
              })
              rows,
        )
      ]

  abbrev entry : Text → Option Value → List (Text × Value)
  entry key none = []
  entry key (some v) = (key, v) ∷ []

  -- The entries that are sent on: all but the identity and the exchange token.
  abbrev pub passed : Payload → List (Text × Value)
  passed p =
      entry (codes "control_token") p.control_token
      ++ (entry (codes "one_time_token") p.one_time_token ++ p.rest)

  unfoldable pub broker_completion : ℕ → Payload → Act (ℕ × Inner)
  broker_completion now p rows = elim (lookup now p rows) [
    | none ↦ (err challenge_invalid, rows)
    | some row ↦
        answer (is_set row.exchange_hash && proves p.exchange_token row.exchange_hash)
          (row.slot, inner_identity row row.inner_exchange (passed p)) rows
  ]

unfoldable pub finish : ℕ → Payload → Act (Unit {0})
finish now p rows = elim (lookup now p rows) [
  | none ↦ (err challenge_invalid, rows)
  | some row ↦ (ok tt, delete_where (λ r. r.outer_id == row.outer_id) rows)
]
