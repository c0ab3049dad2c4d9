-- ===== src/Gateway/Examples/Broker.antt =====
-- The theorems on the capabilities of the desktop broker at concrete inputs.
use canvas_watcher.Base.{
  ◌&&◌, ◌+◌, ◌≤◌, none, some, [], ◌∷◌, Text, codes, ◌≡◌, ◌≢◌, ◌==◌, text_eq, refl, arith, text_beq,
  any, length, select, fetch_one, update_where, ltb, if◌then◌else◌,
}
use canvas_watcher.Gateway.Identity.Security.{token_digest, compare_token}
use canvas_watcher.Gateway.Broker.{
  BrokerMapping, Payload, text, BackendTicket, OuterTicket, Ticket, ok, err, challenge_invalid,
  matches, lookup, put, read_ticket, good_ticket, create, proves, browser_control, broker_claim,
  exchange, broker_completion, finish,
}
use canvas_watcher.Gateway.BrokerBounds.{rows_bounded}
use canvas_watcher.Gateway.BrokerTickets.{
  claim_of, control_of, browser_control-create, broker_claim-create, broker_completion-exchange,
}
use canvas_watcher.Gateway.Examples.Setup.{plain}

broker_runs : Unit {0}
unfolding create read_ticket good_ticket put lookup matches proves browser_control broker_claim
    exchange token_digest compare_token text_beq any select fetch_one update_where
broker_runs = tt

abbrev inner_token : Text
inner_token = codes "inner-token-0123456789"

abbrev ticket : BackendTicket
ticket = record {
  challenge_id = some inner_token;
  instance_id = some (codes "instance-0123456789");
  provider = some (codes "canvas");
  one_time_token = some inner_token;
  control_token = some inner_token;
  expires_in = some 240;
  protocol_version = 1;
}

abbrev mapping : BrokerMapping
mapping = record {
  outer_id = codes "id";
  inner_id = inner_token;
  instance_id = codes "instance-0123456789";
  provider = codes "canvas";
  user_id = codes "u";
  slot = 2;
  ticket_hash = codes "tick";
  inner_ticket = inner_token;
  control_hash = codes "ctrl";
  inner_control = inner_token;
  deadline = 250;
  exchange_hash = [];
  inner_exchange = [];
}

abbrev outer_ticket : OuterTicket
outer_ticket = record {
  challenge_id = codes "id";
  instance_id = codes "instance-0123456789";
  provider = codes "canvas";
  one_time_token = codes "tick";
  control_token = codes "ctrl";
  expires_in = 240;
  protocol_version = 1;
}

creates_mapping :
    create plain 10 ticket (codes "u") 2 (codes "id") (codes "tick") (codes "ctrl") []
    ≡ (ok outer_ticket, mapping ∷ [])
unfolding broker_runs
creates_mapping = refl

abbrev request : Payload
request = record {
  challenge_id = some (codes "id");
  instance_id = some (codes "instance-0123456789");
  provider = some (codes "canvas");
  control_token = some (text (codes "ctrl"));
  one_time_token = none;
  exchange_token = none;
  rest = [];
}

one_mapping : length (mapping ∷ []) ≤ 64
one_mapping = ground arith

rows_bounded_example :
    (length
        (create plain 20 ticket (codes "u") 2 (codes "a") (codes "b") (codes "c") (mapping ∷ [])).1
      ≤ 64)
    × (length (browser_control plain 20 request (codes "u") (mapping ∷ [])).1 ≤ 64)
    × (length (broker_claim plain 20 request (mapping ∷ [])).1 ≤ 64)
    × (length (exchange plain 20 request (codes "a") (codes "b") (mapping ∷ [])).1 ≤ 64)
    × (length (broker_completion plain 20 request (mapping ∷ [])).1 ≤ 64)
    × (length (finish 20 request (mapping ∷ [])).1 ≤ 64)
rows_bounded_example =
    rows_bounded plain 20 ticket request (codes "u") 2 (codes "a") (codes "b") (codes "c")
      (mapping ∷ []) one_mapping

browser_control-create_example :
    (t : Ticket) × (read_ticket ticket ≡ some t)
    × ((browser_control plain 100 (control_of outer_ticket) (codes "v") (mapping ∷ [])).0 ≡ (
        if ltb 100 (10 + 240) && codes "u" == codes "v"
        then ok (
          2,
          record {
            challenge_id = t.challenge_id;
            instance_id = t.instance_id;
            provider = t.provider;
            token = t.control_token;
            rest = [];
          },
        )
        else err challenge_invalid))
browser_control-create_example =
    browser_control-create plain 10 100 ticket (codes "u") (codes "v") 2 (codes "id") (codes "tick")
      (codes "ctrl") [] (mapping ∷ []) outer_ticket creates_mapping

broker_claim-create_example :
    (t : Ticket) × (read_ticket ticket ≡ some t)
    × ((broker_claim plain 100 (claim_of outer_ticket) (mapping ∷ [])).0 ≡ (
        if ltb 100 (10 + 240)
        then ok (
          2,
          record {
            challenge_id = t.challenge_id;
            instance_id = t.instance_id;
            provider = t.provider;
            token = t.one_time_token;
            rest = [];
          },
        )
        else err challenge_invalid))
broker_claim-create_example =
    broker_claim-create plain 10 100 ticket (codes "u") 2 (codes "id") (codes "tick") (codes "ctrl")
      [] (mapping ∷ []) outer_ticket creates_mapping

abbrev exchanged_mapping : BrokerMapping
exchanged_mapping = record mapping { inner_exchange = inner_token; exchange_hash = codes "outer" }

exchanges :
    exchange plain 30 request inner_token (codes "outer") (mapping ∷ [])
    ≡ (ok (codes "outer"), exchanged_mapping ∷ [])
unfolding broker_runs
exchanges = refl

outer_digest : token_digest plain (codes "outer") ≢ []
unfolding token_digest
outer_digest e = cc

broker_completion-exchange_example :
    (row : BrokerMapping) × (lookup 30 request (mapping ∷ []) ≡ some row)
    × ((broker_completion plain 40
          (record request { exchange_token = some (text (codes "outer")) })
          (exchanged_mapping ∷ [])).0
        ≡ (if ltb 40 row.deadline
              && token_digest plain (codes "outer") == token_digest plain (codes "outer")
            then ok (
              row.slot,
              record {
                challenge_id = row.inner_id;
                instance_id = row.instance_id;
                provider = row.provider;
                token = inner_token;
                rest = (codes "control_token", text (codes "ctrl")) ∷ [];
              },
            )
            else err challenge_invalid))
    × (exchange plain 40 request inner_token (codes "o2") (exchanged_mapping ∷ [])
        ≡ (err challenge_invalid, exchanged_mapping ∷ []))
broker_completion-exchange_example =
    broker_completion-exchange plain 30 40 request inner_token (codes "outer") (codes "outer")
      (codes "outer") inner_token (codes "o2") (mapping ∷ []) (exchanged_mapping ∷ []) exchanges
      outer_digest
