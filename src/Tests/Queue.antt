-- ===== src/Tests/Queue.antt =====
-- The channel of mqtt.go on a few requests.
use hmgo.Prelude.{ℕ, ◌≡◌, ◌≤◌, refl, arith, List, [], ◌∷◌, true, some, codes, length}
use hmgo.Mqtt.{connected, PublishRequest, capacity, publish_mqtt, start_publisher, publish_next}
use hmgo.Mqtt.Delivery.{Move, push, pull, flow, accepted, Delivers, flow_keeps_order}

abbrev request : ℕ → PublishRequest
request k = record { topic = codes "t"; qos = 0; retained = true; payload = k ∷ [] }

published_example :
    publish_mqtt (some (1 ∷ [])) (codes "power") (codes "avr") (codes "power") []
    ≡ record {
      topic = codes "github.com/stapelberg/hmgo/power/avr/power";
      qos = 0;
      retained = true;
      payload = 1 ∷ [];
    }
      ∷ []
unfolding publish_mqtt
published_example = refl

-- Without a broker the requests are read, and published nowhere.
disabled_example : publish_next (start_publisher [] true) (request 1 ∷ [], []) ≡ ([], [])
unfolding publish_next start_publisher
disabled_example = refl

abbrev moves : List Move
moves = push (request 1) ∷ push (request 2) ∷ pull ∷ push (request 3) ∷ pull ∷ []

flow_keeps_order_example :
    (length (flow connected moves ([], [])).0 ≤ capacity)
    × Delivers connected
        ([], [])
        (flow connected moves ([], []))
        (accepted connected moves ([], []))
flow_keeps_order_example = flow_keeps_order connected moves ([], []) (omega arith)
