-- ===== src/Mqtt.antt =====
-- mqtt.go: the channel of publish requests, and the loop that publishes them.
pub mod Delivery
use hmgo.Prelude.{ℕ, List, [], ◌∷◌, ◌++◌, Bool, true, false, Option, none, some}
use hmgo.Prelude.{Bytes, codes, length, ltb, if◌then◌else◌}

pub record PublishRequest : Type 0 where
  pub topic : Bytes
  pub qos : ℕ
  pub retained : Bool
  pub payload : Bytes

-- `make(chan PublishRequest, 64)`.
abbrev pub capacity : ℕ
capacity = 64

-- `fmt.Sprintf("github.com/stapelberg/hmgo/%s/%s/%s", hmtype, name, event)`.
unfoldable pub topic_of : Bytes → Bytes → Bytes → Bytes
topic_of hmtype name event =
    codes "github.com/stapelberg/hmgo/" ++ (hmtype ++ (codes "/" ++ (name ++ (codes "/" ++ event))))

-- The `select` of `publishMQTT`: a request for a full channel is dropped.
unfoldable pub offer : PublishRequest → List PublishRequest → List PublishRequest
offer r requests = if ltb (length requests) capacity then requests ++ r ∷ [] else requests

-- `publishMQTT`; the payload is what `json.Marshal` returned.
unfoldable pub publish_mqtt :
    Option Bytes → Bytes → Bytes → Bytes → List PublishRequest → List PublishRequest
unfolding offer topic_of
publish_mqtt none hmtype name event requests = requests
publish_mqtt (some b) hmtype name event requests =
    offer (record { topic = topic_of hmtype name event; qos = 0; retained = true; payload = b })
      requests

-- `publisherLoop` up to its loop: without a broker it reads and publishes nothing, and if the
-- connection fails it returns.
pub data Mode : Type 0 where
  disabled connected gone : Mode

unfoldable pub start_publisher : Bytes → Bool → Mode
start_publisher [] connects = disabled
start_publisher broker true = connected
start_publisher broker false = gone

-- One round of its loop, on the channel.
unfoldable pub publish_next :
    Mode → List PublishRequest × List PublishRequest → List PublishRequest × List PublishRequest
publish_next gone (requests, published) = (requests, published)
publish_next mode ([], published) = ([], published)
publish_next disabled (r ∷ requests, published) = (requests, published)
publish_next connected (r ∷ requests, published) = (requests, published ++ r ∷ [])
