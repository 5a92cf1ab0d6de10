-- ===== src/Redis/Observer.antt =====
-- The messages that users subscribe to (src/server/redis/redis.cpp): `connect`, `publish`,
-- `subscribe`, `unsubscribe` and the rounds of `observe_channel_message`. hiredis and `poll` are
-- parameters: a round is told what they answer.
use cluster_chat_server_with.Prelude.{
  Bool, true, false, not, List, [], ◌∷◌, ◌++◌, Option, none, some, Bytes, if◌then◌else◌, ℤ, pos,
  negsuc, St,
}
use cluster_chat_server_with.Text.{codes, to_string}
use cluster_chat_server_with.Config.{Environment, atoi, get_env_or_default, get_env_int_or_default}

-- `redisConnect` tells whether its result is not null; `publish` gives the integer of the reply to
-- PUBLISH, or none for a null reply.
pub record Hiredis : Type 1 where
  pub State : Type 0
  pub redis_connect : Bytes → ℤ → State → Bool × State
  pub publish : ℤ → Bytes → State → Option ℤ × State

module _ (h : Hiredis) where
  -- `Redis::connect` up to the start of the thread.
  unfoldable pub connect : Environment → St h.State Bool
  connect env w =
      let host = get_env_or_default env (codes "CHAT_REDIS_HOST") (codes "127.0.0.1") in
      let port = get_env_int_or_default env (codes "CHAT_REDIS_PORT") (pos 6379) in
      let (publisher, w1) = h.redis_connect host port w in
      let (subscriber, w2) = h.redis_connect host port w1 in
      let (commander, w3) = h.redis_connect host port w2 in
      if not publisher
      then (false, w1)
      else if not subscriber
      then (false, w2)
      else if not commander
      then (false, w3)
      else (true, w3)

  unfoldable pub publish : ℤ → Bytes → St h.State ℤ
  publish channel message w =
      let (reply, t) = h.publish channel message w in
      elim reply [ none ↦ (negsuc 0, t) | some subscribers ↦ (subscribers, t) ]

-- `cmd_queue_`, the oldest command first.
abbrev pub Commands : Type 0
Commands = List Bytes

unfoldable pub subscribe : ℤ → Commands → Bool × Commands
subscribe channel queue = (true, queue ++ (codes "SUBSCRIBE " ++ to_string channel) ∷ [])

unfoldable pub unsubscribe : ℤ → Commands → Bool × Commands
unsubscribe channel queue = (true, queue ++ (codes "UNSUBSCRIBE " ++ to_string channel) ∷ [])

pub data Polled : Type 0 where
  poll_failed timed_out has_data : Polled

-- A reply is an array of three; `text` is none where the third has no string.
pub record Pushed : Type 0 where
  pub channel : Bytes
  pub text : Option Bytes

-- The calls of `notify_message_handler_` for the replies of a round.
unfoldable pub notify : List Pushed → List (ℤ × Bytes)
notify [] = []
notify (reply ∷ rest) = elim reply.text [
  | none ↦ notify rest
  | some text ↦ (atoi reply.channel, text) ∷ notify rest
]

-- The commands appended, the calls made, the queue left, and whether the loop goes on.
pub record ObserveRound : Type 0 where
  pub appended : List Bytes
  pub notified : List (ℤ × Bytes)
  pub queue : Commands
  pub goes_on : Bool

-- One round: `flushed` and `was_read` tell whether the output could be written and the input read.
unfoldable pub observe_round : Bool → Polled → Bool → List Pushed → Commands → ObserveRound
unfolding notify
observe_round false polled was_read replies queue = record {
  appended = queue;
  notified = [];
  queue = [];
  goes_on = false;
}
observe_round true poll_failed was_read replies queue = record {
  appended = queue;
  notified = [];
  queue = [];
  goes_on = false;
}
observe_round true timed_out was_read replies queue = record {
  appended = queue;
  notified = [];
  queue = [];
  goes_on = true;
}
observe_round true has_data false replies queue = record {
  appended = queue;
  notified = [];
  queue = [];
  goes_on = false;
}
observe_round true has_data true replies queue = record {
  appended = queue;
  notified = notify replies;
  queue = [];
  goes_on = true;
}
