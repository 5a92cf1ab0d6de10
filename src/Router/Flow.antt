-- ===== src/Router/Flow.antt =====
-- One channel under every interleaving of its senders with its loop: what is sent, in which order,
-- and that what waits is not forgotten. A step is at most one part under the lock, or one call made
-- without it.
use cluster_chat_server_with.Prelude.{
  ℕ, suc, ◌+◌, ◌≡◌, Bool, true, false, not, ◌&&◌, ◌||◌, List, [], ◌∷◌, ◌++◌, Option, none, some,
  Bytes,
}
use cluster_chat_server_with.Types.{NodeMeta}
use cluster_chat_server_with.Router.Channel.{
  ShardChannel, new_channel, Action, send, run_connect, run_drain, connect, is_connected,
  enqueue_locked, after_unlock, drain_round, handle_connected, handle_disconnected,
  handle_write_complete, handle_high_water_mark, connect_check, connect_client, prewarm_channel,
  stop_channel, stop_in_loop,
}

-- The messages among the actions that go out on a connection.
abbrev pub sends : List Action → List Bytes
sends [] = []
sends (send c m ∷ rest) = m ∷ sends rest
sends (a ∷ rest) = sends rest

-- How often the actions schedule a connect and a drain.
abbrev pub connects_in : List Action → ℕ
connects_in [] = 0
connects_in (run_connect ∷ rest) = connects_in rest + 1
connects_in (a ∷ rest) = connects_in rest

abbrev pub drains_in : List Action → ℕ
drains_in [] = 0
drains_in (run_drain ∷ rest) = drains_in rest + 1
drains_in (a ∷ rest) = drains_in rest

-- Whether the actions start the `TcpClient`.
abbrev pub dials_in : List Action → Bool
dials_in [] = false
dials_in (connect ∷ rest) = true
dials_in (a ∷ rest) = dials_in rest

-- A message on its way: through the queue, or past it.
pub data Message : Type 0 where
  through past : Bytes → Message

abbrev pub queued_of : List Message → List Bytes
queued_of [] = []
queued_of (through m ∷ rest) = m ∷ queued_of rest
queued_of (past m ∷ rest) = queued_of rest

abbrev pub past_of : List Message → List Bytes
past_of [] = []
past_of (through m ∷ rest) = past_of rest
past_of (past m ∷ rest) = m ∷ past_of rest

-- The channel, and whether its connection is up. The senders that have unlocked hold messages to
-- send and calls to schedule; the loop has such calls in its queue. It is at rest, or between the
-- two parts of a connect, or in `drainPendingInLoop`, with at most one message that it has taken
-- and not sent. `dialing` is whether the `TcpClient` is connecting. Then come the messages that
-- were accepted, sent, and thrown away by `stopChannel`, oldest first.
pub record Flow : Type 0 where
  pub channel : ShardChannel
  pub up : Bool
  pub held : List Bytes
  pub connects_held : ℕ
  pub drains_held : ℕ
  pub connects_queued : ℕ
  pub drains_queued : ℕ
  pub checked : Bool
  pub draining : Bool
  pub taken : List Bytes
  pub dialing : Bool
  pub accepted : List Message
  pub sent : List Message
  pub lost : List Bytes

abbrev pub logged : Bool → Option ℕ → Bytes → List Message
logged false d m = []
logged true none m = through m ∷ []
logged true (some c) m = past m ∷ []

-- What a sender has done when it has unlocked.
unfoldable pub enqueued : Flow → Bytes → Flow
enqueued f m =
    let l = enqueue_locked f.up f.channel m in
    let acts = after_unlock l m in
    record f {
      channel = l.channel;
      held = f.held ++ sends acts;
      connects_held = f.connects_held + connects_in acts;
      drains_held = f.drains_held + drains_in acts;
      accepted = f.accepted ++ logged l.accepted l.direct m;
    }

unfoldable pub warmed : Flow → Flow
warmed f =
    let (channel, acts) = prewarm_channel f.up f.channel in
    record f { channel = channel; connects_held = f.connects_held + connects_in acts }

-- A round of the drain takes a message, or ends the drain.
abbrev pub round_of : Flow → Option (ℕ × Bytes) × ShardChannel → Flow
round_of f (none, ch) = record f { channel = ch; draining = false }
round_of f (some (c, m), ch) = record f { channel = ch; taken = m ∷ [] }

unfoldable pub rounded : Flow → Flow
rounded f = round_of f (drain_round f.up f.channel)

abbrev pub checked_by : Flow → Bool × ShardChannel → Flow
checked_by f (go_on, ch) = record f { channel = ch; checked = go_on }

unfoldable pub dialled : Flow → Flow
dialled f =
    let (channel, acts) = connect_client f.channel in
    record f { channel = channel; checked = false; dialing = f.dialing || dials_in acts }

-- The loop is in none of its calls.
abbrev pub at_rest : Flow → Bool
at_rest f = not f.draining && not f.checked

-- No connection is held that has closed without the call of `handleConnection`.
abbrev pub IsSteady : Flow → Type 0
IsSteady f = is_connected f.up f.channel ≡ is_connected true f.channel

-- A sender's step can come at any time. `breaks` is the moment at which the network library has
-- marked the connection as closed and has not called `handleConnection` yet; no other call in the
-- loop comes between the two. A `TcpClient` connects again by itself when its connection is lost,
-- as `enableRetry` asks it to, until `stop`.
pub data Step : Flow → Flow → Type 0 where
  enqueues : (f : Flow) (m : Bytes) → Step f (enqueued f m)
  sends_held :
      (f : Flow) (before after : List Bytes) (m : Bytes)
      → f.held ≡ before ++ m ∷ after
      → Step f (record f { held = before ++ after; sent = f.sent ++ past m ∷ [] })
  schedules_connect :
      (f : Flow) (n : ℕ)
      → f.connects_held ≡ suc n
      → Step f (record f { connects_held = n; connects_queued = f.connects_queued + 1 })
  schedules_drain :
      (f : Flow) (n : ℕ)
      → f.drains_held ≡ suc n
      → Step f (record f { drains_held = n; drains_queued = f.drains_queued + 1 })
  warms : (f : Flow) → Step f (warmed f)
  drains :
      (f : Flow) (n : ℕ)
      → f.drains_queued ≡ suc n
      → at_rest f ≡ true
      → IsSteady f
      → Step f (record f { drains_queued = n; draining = true })
  rounds : (f : Flow) → f.draining ≡ true → f.taken ≡ [] → Step f (rounded f)
  sends_taken :
      (f : Flow) (m : Bytes)
      → f.taken ≡ m ∷ []
      → Step f (record f { taken = []; sent = f.sent ++ through m ∷ [] })
  completes :
      (f : Flow)
      → at_rest f ≡ true
      → IsSteady f
      → Step f (record f { channel = handle_write_complete f.channel; draining = true })
  overloads : (f : Flow) → Step f (record f { channel = handle_high_water_mark f.channel })
  checks :
      (f : Flow) (n : ℕ)
      → f.connects_queued ≡ suc n
      → at_rest f ≡ true
      → IsSteady f
      → Step f (record (checked_by f (connect_check f.up f.channel)) { connects_queued = n })
  dials : (f : Flow) → f.checked ≡ true → Step f (dialled f)
  opens :
      (f : Flow) (conn : ℕ)
      → at_rest f ≡ true
      → f.dialing ≡ true
      → Step f (record f {
        channel = handle_connected f.channel conn;
        up = true;
        dialing = false;
        draining = true;
      })
  breaks : (f : Flow) → at_rest f ≡ true → Step f (record f { up = false })
  closes :
      (f : Flow)
      → at_rest f ≡ true
      → f.up ≡ false
      → (is_connected true f.channel || f.channel.closing) ≡ true
      → Step f (record f { channel = handle_disconnected f.channel; dialing = f.channel.client })
  stops :
      (f : Flow)
      → Step f
          (record f { channel = (stop_channel f.channel).0; lost = f.lost ++ f.channel.pending })
  stops_client :
      (f : Flow) (captured : Option ℕ)
      → at_rest f ≡ true
      → f.channel.closing ≡ true
      → Step f (record f { channel = (stop_in_loop f.channel captured).0; dialing = false })

pub data Reach (f : Flow) : Flow → Type 0 where
  here : Reach f f
  then_step : {g h : Flow} → Reach f g → Step g h → Reach f h

abbrev pub fresh : Bytes → NodeMeta → ℕ → ℕ → ℕ → Flow
fresh id meta loop limit water_mark = record {
  channel = new_channel id meta loop limit water_mark;
  up = false;
  held = [];
  connects_held = 0;
  drains_held = 0;
  connects_queued = 0;
  drains_queued = 0;
  checked = false;
  draining = false;
  taken = [];
  dialing = false;
  accepted = [];
  sent = [];
  lost = [];
}
