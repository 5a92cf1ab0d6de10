-- ===== src/Service/Dispatch.antt =====
-- The dispatcher of a loop: messages for the clients of this node are queued under the loop that
-- owns their connection, and one drain at a time sends them (src/server/chatservice.cpp).
use cluster_chat_server_with.Prelude.{
  ℕ, Bool, true, false, not, List, [], ◌∷◌, ◌++◌, Option, none, some, Bytes, length, leb, is_empty,
  if◌then◌else◌, ◌≡◌,
}
use cluster_chat_server_with.Service.Connections.{Conn}

-- `LocalDeliveryTask`, without its time stamp.
pub record Task : Type 0 where
  pub conn : Conn
  pub msg : Bytes

-- `LocalLoopDispatcher`
pub record Dispatcher : Type 0 where
  pub loop : ℕ
  pub pending : List Task
  pub flush_scheduled : Bool
  pub pending_limit : ℕ

-- The constructor's value.
abbrev pub new_dispatcher : ℕ → ℕ → Dispatcher
new_dispatcher loop limit = record {
  loop = loop;
  pending = [];
  flush_scheduled = false;
  pending_limit = limit;
}

pub record Queued : Type 0 where
  pub dispatcher : Dispatcher
  pub accepted : Bool
  pub should_schedule : Bool

-- The locked part of `enqueueLocalDelivery`.
unfoldable pub enqueue : Dispatcher → Task → Queued
enqueue d t =
    if leb d.pending_limit (length d.pending)
    then record { dispatcher = d; accepted = false; should_schedule = false }
    else record {
      dispatcher = record d { pending = d.pending ++ t ∷ []; flush_scheduled = true };
      accepted = true;
      should_schedule = not d.flush_scheduled;
    }

-- The locked part of `drainLocalDeliveriesInLoop`: the tasks swapped out, or `return`.
unfoldable pub take_tasks : Dispatcher → Option (List Task) × Dispatcher
take_tasks d =
    if is_empty d.pending
    then (none, record d { flush_scheduled = false })
    else (some d.pending, record d { pending = [] })

-- A drain that no sender comes between: each round sends what it took, and the second finds
-- nothing.
unfoldable pub drain : Dispatcher → List Task × Dispatcher
unfolding take_tasks
drain d = elim (take_tasks d).0 [
  | none ↦ ([], (take_tasks d).1)
  | some tasks ↦ (tasks, (take_tasks (take_tasks d).1).1)
]

-- A dispatcher, with a drain that is queued in the loop, one that is under way with the tasks that
-- it has taken and not sent, and the tasks that were accepted and sent, oldest first.
pub record Traffic : Type 0 where
  pub dispatcher : Dispatcher
  pub queued : Bool
  pub active : Bool
  pub batch : List Task
  pub accepted : List Task
  pub sent : List Task

abbrev pub either : Bool → Bool → Bool
either true b = true
either false b = b

unfoldable pub accept : Traffic → Task → Traffic
unfolding enqueue
accept f t =
    let r = enqueue f.dispatcher t in
    record f {
      dispatcher = r.dispatcher;
      queued = either r.should_schedule f.queued;
      accepted = if r.accepted then f.accepted ++ t ∷ [] else f.accepted;
    }

abbrev take_into : Traffic → Option (List Task) × Dispatcher → Traffic
take_into f (none, d) = record f { dispatcher = d; active = false }
take_into f (some tasks, d) = record f { dispatcher = d; batch = tasks }

unfoldable pub refill : Traffic → Traffic
unfolding take_tasks
refill f = take_into f (take_tasks f.dispatcher)

-- A sender in any thread, the start of a queued drain, the sending of its next task, and its next
-- round. A sender in the loop's own thread starts the drain itself: `accepts` and `starts`.
pub data Tick : Traffic → Traffic → Type 0 where
  accepts : (f : Traffic) (t : Task) → Tick f (accept f t)
  starts : (f : Traffic) → f.queued ≡ true → Tick f (record f { queued = false; active = true })
  delivers :
      (f : Traffic) (t : Task) (ts : List Task)
      → f.active ≡ true
      → f.batch ≡ t ∷ ts
      → Tick f (record f { batch = ts; sent = f.sent ++ t ∷ [] })
  refills : (f : Traffic) → f.active ≡ true → f.batch ≡ [] → Tick f (refill f)

pub data Ticks (f : Traffic) : Traffic → Type 0 where
  none_yet : Ticks f f
  one_more : {g h : Traffic} → Ticks f g → Tick g h → Ticks f h

abbrev pub quiet : ℕ → ℕ → Traffic
quiet loop limit = record {
  dispatcher = new_dispatcher loop limit;
  queued = false;
  active = false;
  batch = [];
  accepted = [];
  sent = [];
}
