-- ===== src/Producer/Counts.antt =====
-- What the two counters count.
use realtime_fraud_feature_s.Prelude.{◌+◌, ◌<◌, ◌≡◌, Text, arith}
use realtime_fraud_feature_s.Producer.{
  World, start, Step, accept, refuse, deliver, fail, Reach, here, next, stats, init, send,
  on_success, on_error,
}

pub record IsCounted (topic : Text) (w : World) : Type 0 where
  pub sent : w.producer.sent_count ≡ w.delivered + w.failed + w.in_flight
  pub errors : w.producer.error_count ≡ w.refused + w.failed
  pub same_topic : w.producer.topic ≡ topic

Step-IsCounted : {topic : Text} {v w : World} → Step v w → IsCounted topic v → IsCounted topic w
unfolding send on_success on_error
Step-IsCounted accept c = ground arith
Step-IsCounted refuse c = ground arith
Step-IsCounted (deliver e) c = ground arith
Step-IsCounted (fail e) c = ground arith

Reach-IsCounted : {topic : Text} {v w : World} → IsCounted topic v → Reach v w → IsCounted topic w
Reach-IsCounted c here = c
Reach-IsCounted c (next r s) = Step-IsCounted s (Reach-IsCounted c r)

start-IsCounted : (topic : Text) → IsCounted topic (start topic)
unfolding init
start-IsCounted topic = ground arith

-- Whatever the client does, `sent` counts the messages that are delivered, failed or under way,
-- and `errors` those that were refused or failed. So once nothing is under way, as after a
-- flush, the two together count each failed message twice, and `sent` is the number of delivered
-- messages only if none failed.
pub stats-Reach :
    (topic : Text) (w : World)
    → Reach (start topic) w
    → ((stats w.producer).sent ≡ w.delivered + w.failed + w.in_flight)
      × ((stats w.producer).errors ≡ w.refused + w.failed)
      × ((stats w.producer).topic ≡ topic)
      × (w.in_flight ≡ 0 → 0 < w.failed → w.delivered < (stats w.producer).sent)
unfolding stats
stats-Reach topic w r =
    let c = Reach-IsCounted (start-IsCounted topic) r in
    (c.sent, c.errors, c.same_topic, λ none_left some_failed. ground arith)
