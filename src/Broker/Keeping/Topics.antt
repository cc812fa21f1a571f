-- ===== src/Broker/Keeping/Topics.antt =====
-- The rules for `EnsureTopicMetadata` (core/internal/broker/broker.go).
use distributed_real_time_ev.Base.{ℕ, zero, suc, ◌+◌, ℤ, pos, String, Option, none, some}
use distributed_real_time_ev.Base.Map.{Map}
use distributed_real_time_ev.ControlPlane.Metadata.{TopicMetadata}
use distributed_real_time_ev.ControlPlane.Store.{MetadataError, Result, error, ok, ApplyResult}
use distributed_real_time_ev.Broker.{Action}
use distributed_real_time_ev.Broker.Keeping.{Keeps, >>=-Keeps, now-Keeps, pure-Keeps, plain_rules}
use distributed_real_time_ev.Broker.Keeping.Calls.{call_rules, set_partition_leader-Keeps}
use distributed_real_time_ev.Broker.Topics.{
  unless_error, lead_each, lead_topic, made, make_topic, known_or_made, ensure_topic_metadata,
}

module _ {n : ℕ} where
  unless_error-Keeps :
      (r : Result ApplyResult) (rest : Action (Option MetadataError))
      → Keeps n rest
      → Keeps n (unless_error r rest)
  unfolding unless_error
  unless_error-Keeps (error e) rest h = pure-Keeps (some e)
  unless_error-Keeps (ok a) rest h = h

  lead_each-Keeps :
      (topic : String) (local : ℤ) (leaders : Map ℤ ℤ) (left next : ℕ)
      → Keeps n (lead_each topic local leaders left next)
  unfolding lead_each
  lead_each-Keeps topic local leaders zero next = pure-Keeps none
  lead_each-Keeps topic local leaders (suc m) next =
      let rest = lead_each-Keeps topic local leaders m (next + 1) in
      >>=-Keeps _ _ now-Keeps (λ t.
        >>=-Keeps _ _ (set_partition_leader-Keeps topic (pos next) _ _ t)
          (λ r. unless_error-Keeps r _ rest))

  lead_topic-Keeps : (topic : String) → Keeps n (lead_topic topic)
  unfolding lead_topic
  lead_topic-Keeps topic = search (plain_rules, lead_each-Keeps) depth 30 fits 2000

  made-Keeps : (topic : String) (r : Result ApplyResult) → Keeps n (made topic r)
  unfolding made
  made-Keeps topic (error e) = pure-Keeps (error e)
  made-Keeps topic (ok a) = lead_topic-Keeps topic

  known_or_made-Keeps :
      (topic : String) (o : Option TopicMetadata) → Keeps n (known_or_made topic o)
  unfolding known_or_made make_topic
  known_or_made-Keeps topic none = search (plain_rules, call_rules, made-Keeps) depth 30 fits 2000
  known_or_made-Keeps topic (some md) = pure-Keeps (ok md)

  pub ensure_topic_metadata-Keeps : (topic : String) → Keeps n (ensure_topic_metadata topic)
  unfolding ensure_topic_metadata
  ensure_topic_metadata-Keeps topic = search (plain_rules, known_or_made-Keeps) depth 30
