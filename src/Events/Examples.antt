-- ===== src/Events/Examples.antt =====
-- The theorems on the event hub at concrete inputs. A channel is the number of messages it has room
-- for.
use machineemu.Prelude.{
  ℕ, zero, suc, ◌≡◌, refl, arith, true, Option, none, some, List, [], ◌∷◌, replicate, String,
}
use machineemu.Prelude.Result.{Result, ok, err}
use machineemu.Domain.{is_valid_id}
use machineemu.Events.Cursors.{Cursor, event_id, parse, every}
use machineemu.Events.Cursors.RoundTrip.{parse-event_id}
use machineemu.Events.Histories.{EventRecord, EventHub, size, lookup, sum, ◌>>=◌}
use machineemu.Events.Published.{PublishResult, publish-result}
use machineemu.Events.Replay.{SubscribeResult, subscribe-result}
use machineemu.Events.Calls.{
  HubCall, publish_event, open_stream, drop_stream, close, hub_calls, Leaves, hub_calls-Leaves,
  new-IsHub,
}
use machineemu.Events.Reopened.{is_replayable-close_instance}
use machineemu.Events.Kept.{IsHub}
use machineemu.Events.{StatusCode, new_hub, publish, subscribe, close_instance, is_replayable}

abbrev try_send : ℕ → EventRecord → Option ℕ
try_send zero r = none
try_send (suc room) r = some room

abbrev channel : ℕ → ℕ
channel room = room

-- `lab01`, and a generation.
abbrev lab : List ℕ
lab = b'l' ∷ b'a' ∷ b'b' ∷ b'0' ∷ b'1' ∷ []

abbrev generation : List ℕ
generation = replicate 32 b'a'

abbrev hub : EventHub ℕ
hub = new_hub ℕ generation

abbrev event : List ℕ
event = b'{' ∷ b'}' ∷ []

parse-event_id_example :
    parse (event_id lab generation 42)
    ≡ some (record { instance_id = lab; generation = generation; sequence = 42 })
parse-event_id_example =
    parse-event_id lab generation 42 (unfold is_valid_id in refl) refl (unfold every in refl)
      (omega arith) (omega arith)

publish-result_example :
    PublishResult hub lab "state"
      (some event)
      (publish channel try_send lab "state" (some event) true hub)
publish-result_example =
    publish-result channel try_send hub lab "state" (some event) true
      (new-IsHub channel try_send generation refl) (omega arith) (omega arith)

-- The hub after an event of the instance, with one subscriber.
abbrev state_record : EventRecord
state_record = record {
  sequence = 1;
  order = 1;
  kind = "state";
  id = event_id lab generation 1;
  text = event;
}

abbrev used_hub : EventHub ℕ
used_hub = record {
  generation = generation;
  histories =
      record {
        name = lab;
        history = record {
          next_sequence = 1;
          bytes = size state_record;
          records = state_record ∷ [];
          subscribers = (1, 64) ∷ [];
        };
      }
      ∷ [];
  bytes = size state_record;
  next_order = 1;
  next_subscriber = 1;
}

used_hub-IsHub : IsHub used_hub
unfolding event_id machineemu.Events.Cursors.digits lookup sum
used_hub-IsHub = record {
  generation_length = refl;
  unique = (refl, tt);
  each = (
    record {
      counted = omega arith;
      bytes_le = omega arith;
      few = omega arith;
      before = 0;
      contiguous = (refl, refl);
      sequence_le = omega arith;
      subscribers_le = omega arith;
      ordered = (omega arith, tt);
    },
    tt,
  );
  counted = omega arith;
  within = omega arith;
  subscribers_le = omega arith;
}

abbrev seen : Cursor
seen = record { instance_id = lab; generation = generation; sequence = 0 }

subscribe-result_example :
    SubscribeResult channel try_send used_hub lab
      (some seen)
      (some event)
      (subscribe channel try_send lab (some seen) (some event) used_hub)
subscribe-result_example =
    subscribe-result channel try_send used_hub lab (some seen) (some event) used_hub-IsHub
      (omega arith) (omega arith)

abbrev calls : List HubCall
calls =
    open_stream lab none (some event)
    ∷ publish_event lab "state" (some event)
    ∷ drop_stream lab 1
    ∷ publish_event lab "qmp" none
    ∷ close lab
    ∷ []

hub_calls-Leaves_example : Leaves 5 (hub_calls channel try_send calls hub)
hub_calls-Leaves_example =
    hub_calls-Leaves channel try_send generation calls refl
      (omega arith, (omega arith, (tt, (omega arith, (tt, tt))))) (omega arith)

is_replayable-close_instance_example :
    (left : EventHub ℕ) × (publish channel try_send lab "state"
        (some event)
        true
        (close_instance lab used_hub)
      ≡ some (left, true))
    × (is_replayable left lab
          (some (record { instance_id = lab; generation = generation; sequence = 1 }))
        ≡ true)
is_replayable-close_instance_example =
    is_replayable-close_instance channel try_send used_hub lab "state" event true used_hub-IsHub
      (omega arith) (omega arith) (omega arith)

abbrev kinds : List EventRecord → List String
kinds [] = []
kinds (r ∷ records) = r.kind ∷ kinds records

abbrev sent : Result StatusCode (ℕ × List EventRecord) → List String
sent (err status) = []
sent (ok (number, records)) = kinds records

-- A stream, an event, and the stream again from its first event: the event is replayed.
replay_test :
    (subscribe channel try_send lab none (some event) hub >>= λ first.
    publish channel try_send lab "state" (some event) true first.0 >>= λ next.
    subscribe channel try_send lab
      (some (record { instance_id = lab; generation = generation; sequence = 1 }))
      (some event)
      next.0
    >>= λ again. some (sent again.1))
    ≡ some ("state" ∷ [])
unfolding subscribe publish machineemu.Events.Cursors.digits
replay_test = refl
