-- ===== src/Router/Wake.antt =====
-- A queued message of an open channel always has an event ahead of it that will move it on.
use cluster_chat_server_with.Prelude.{
  ◌≡◌, refl, Bool, true, false, not, ◌||◌, arith, ℕ, Bytes, is_empty, eqb, if◌then◌else◌,
}
use cluster_chat_server_with.Types.{NodeMeta}
use cluster_chat_server_with.Router.Channel.{
  is_connected, enqueue_locked, after_unlock, drain_round, handle_connected, handle_disconnected,
  handle_write_complete, handle_high_water_mark, ensure_client, connect_check, connect_client,
  prewarm_channel, stop_channel, stop_in_loop,
}
use cluster_chat_server_with.Router.Flow.{
  Flow, enqueued, warmed, rounded, dialled, Step, enqueues, sends_held, schedules_connect,
  schedules_drain, warms, drains, rounds, sends_taken, completes, overloads, checks, dials, opens,
  breaks, closes, stops, stops_client, Reach, here, then_step, fresh,
}

abbrev pub some_of : ℕ → Bool
some_of n = not (eqb n 0)

-- A connection attempt: a sender is about to schedule one, one is queued in the loop or begun
-- there, or the `TcpClient` is connecting.
abbrev pub has_attempt : Flow → Bool
has_attempt f = some_of f.connects_held || some_of f.connects_queued || f.checked || f.dialing

-- A drain: a sender is about to queue one, or one is queued in the loop or runs there.
abbrev pub has_drain : Flow → Bool
has_drain f = some_of f.drains_held || some_of f.drains_queued || f.draining

-- The event that a queued message waits for. Without a connection that is up, it is an attempt, or
-- the callback of the connection that has just broken; with one, it is a drain, or the end of the
-- writes that have put the connection over its high-water mark.
abbrev pub has_event : Flow → Bool
has_event f =
    if is_connected f.up f.channel
    then has_drain f || f.channel.overloaded
    else has_attempt f || is_connected true f.channel

pub record IsAwake (f : Flow) : Type 0 where
  pub connected :
      (f.channel.closing
        || is_empty f.channel.pending
        || not (is_connected f.up f.channel)
        || has_drain f
        || f.channel.overloaded)
      ≡ true
  pub apart :
      (f.channel.closing
        || is_empty f.channel.pending
        || is_connected true f.channel
        || f.channel.connecting)
      ≡ true
  pub attempted : (f.channel.closing || not f.channel.connecting || has_attempt f) ≡ true
  pub single :
      (f.channel.closing || not f.channel.connecting || not (is_connected f.up f.channel)) ≡ true
  pub dialed : (f.channel.closing || not f.dialing || f.channel.client) ≡ true
  pub client : (f.channel.closing || not (is_connected true f.channel) || f.channel.client) ≡ true

enqueued-IsAwake : (f : Flow) (m : Bytes) → IsAwake f → IsAwake (enqueued f m)
unfolding enqueued enqueue_locked after_unlock
enqueued-IsAwake f m v = ground arith

pub Step-IsAwake : {f g : Flow} → Step f g → IsAwake f → IsAwake g
Step-IsAwake (enqueues f m) v = enqueued-IsAwake f m v
Step-IsAwake (sends_held f before after m e) v = ground arith
Step-IsAwake (schedules_connect f n e) v = ground arith
Step-IsAwake (schedules_drain f n e) v = ground arith
Step-IsAwake (warms f) v = unfold warmed prewarm_channel in ground arith
Step-IsAwake (drains f n e r s) v = ground arith
Step-IsAwake (rounds f d e) v = unfold rounded drain_round in ground arith
Step-IsAwake (sends_taken f m e) v = ground arith
Step-IsAwake (completes f r s) v = unfold handle_write_complete in ground arith
Step-IsAwake (overloads f) v = unfold handle_high_water_mark in ground arith
Step-IsAwake (checks f n e r s) v = unfold connect_check in ground arith
Step-IsAwake (dials f e) v = unfold dialled connect_client ensure_client in ground arith
Step-IsAwake (opens f conn r d) v = unfold handle_connected in ground arith
Step-IsAwake (breaks f r) v = ground arith
Step-IsAwake (closes f r u h) v = unfold handle_disconnected in ground arith
Step-IsAwake (stops f) v = unfold stop_channel in ground arith
Step-IsAwake (stops_client f captured r c) v = unfold stop_in_loop in ground arith

Reach-IsAwake : {f g : Flow} → IsAwake f → Reach f g → IsAwake g
Reach-IsAwake v here = v
Reach-IsAwake v (then_step r s) = Step-IsAwake s (Reach-IsAwake v r)

-- After any steps of senders and of a channel's loop, in any order: if the channel is open and a
-- message is queued, then, with a connection that is up, a sender is about to queue a drain, or
-- one is queued in the loop or runs there, or the connection is marked as over its high-water
-- mark; and without one, a sender is about to schedule a connection attempt, or one is queued in
-- the loop or begun there, or the TcpClient is connecting, or the callback of a connection that
-- has broken is due.
pub queue_has_event :
    (id : Bytes) (meta : NodeMeta) (loop limit water_mark : ℕ) (f : Flow)
    → Reach (fresh id meta loop limit water_mark) f
    → f.channel.closing ≡ false
    → is_empty f.channel.pending ≡ false
    → has_event f ≡ true
queue_has_event id meta loop limit water_mark f r open_now waiting =
    ground (arith, Reach-IsAwake start r)
  where
    start : IsAwake (fresh id meta loop limit water_mark)
    start = record {
      connected = refl;
      apart = refl;
      attempted = refl;
      single = refl;
      dialed = refl;
      client = refl;
    }
