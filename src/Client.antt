-- ===== src/Client.antt =====
-- client.cpp: the client library. Its statics and MyClient are one record. Every method and every
-- function of the interface runs under one mutex, so each is one step, but for the waits in get(),
-- which are steps of their own (Client/Get).
pub mod Interface
pub mod Library
pub mod Users
pub mod Get
pub mod Thread
pub mod Owned
pub mod Reach
pub mod Races
pub mod Waiting
pub mod Wire
pub mod Mutex
pub mod Tests
use diamond_apparatus.Base.{
  ℕ, suc, ◌+◌, Bool, true, false, Option, none, some, List, [], ◌∷◌, ◌++◌, length, drop, leb, ◌==◌,
  if◌then◌else◌,
}
use diamond_apparatus.Base.Int.{ℤ}
use diamond_apparatus.Base.Order.{nat_ord, bytes_ord}
use diamond_apparatus.Base.Result.{Result, ok, fault, ◌>>=◌}
use diamond_apparatus.Base.Bytes.{htonl, ntohl}
use diamond_apparatus.Map
use diamond_apparatus.Map.{Map, same, is_some}
use diamond_apparatus.Topic.{Topic, new_topic, topic_changed}
use diamond_apparatus.Topic.Message.{Allocator, to_message, from_message, get_name_from_msg}
use diamond_apparatus.Tcp.Send.{Net, basesend}
use diamond_apparatus.Messages.{cs_publish, cs_subscribe, sc_notify, sc_killclient, str_msg_size}

abbrev pub Name : Type 0
Name = List ℕ

-- `topics` holds pointers into `heap`, whose cells below `next` have been allocated; `signals`
-- counts the calls of pthread_cond_signal(). `waittopic` is `none` for NULL,
-- and `synced` says that the mutex and the condition have not been destroyed.
pub record Client : Type 0 where
  pub fd : ℕ
  pub topics : Map Name ℕ
  pub heap : Map ℕ Topic
  pub next : ℕ
  pub running : Bool
  pub waittopic : Option Name
  pub signals : ℕ
  pub init_count : ℕ
  pub synced : Bool
  pub net : Net

-- The test of notify(): the empty string waits for any topic.
abbrev pub is_waited_for : Name → Option Name → Bool
is_waited_for name none = false
is_waited_for name (some []) = true
is_waited_for name (some (b ∷ w)) = same name (b ∷ w)

abbrev pub signal : Client → Client
signal c = record c { signals = c.signals + 1; waittopic = none }

unfoldable pub signal_waiter : Name → Client → Client
signal_waiter name c = if is_waited_for name c.waittopic then signal c else c

-- notify(), behind the lookups: `now` is the clock's.
unfoldable pub notify_cell : ℤ → Name → List ℕ → ℕ → Option Topic → Client → Result Client
notify_cell now name p cell none c = fault
notify_cell now name p cell (some t) c = do
  t' ← from_message p t
  let changed : Topic = record t' { state = topic_changed; time_last_set = now }
  ok (signal_waiter name (record c { heap = Map.insert cell changed c.heap }))

-- A topic that is not in the client's set is ignored.
unfoldable pub notify_found : ℤ → Name → List ℕ → Option ℕ → Client → Result Client
notify_found now name p none c = ok c
notify_found now name p (some cell) c = notify_cell now name p cell (Map.find cell c.heap) c

unfoldable pub notify : ℤ → List ℕ → Client → Result Client
notify now p c = do name ← get_name_from_msg p; notify_found now name p (Map.find name c.topics) c

-- What SC_KILLCLIENT does.
unfoldable pub force_end : Client → Client
force_end c = record (if is_some c.waittopic then signal c else c) { running = false }

unfoldable pub by_type : ℕ → ℤ → List ℕ → Client → Result Client
by_type type now p c =
    let c' = if type == sc_killclient then force_end c else c in
    if type == sc_notify then notify now p c' else ok c'

unfoldable pub process : ℤ → List ℕ → Client → Result Client
process now p c = do (type, rest) ← ntohl p; by_type type now p c

-- request() of TCPClient.
unfoldable pub request : List ℕ → Client → Result Client
request p c = do net ← basesend c.fd p c.net; ok (record c { net = net })

-- The field `msg` of a StrMsg on the stack, behind strcpy(): the rest of it is as it was.
unfoldable pub str_msg : List ℕ → Name → Result (List ℕ)
str_msg junk name =
    if leb (length name + 1) str_msg_size
    then ok (name ++ 0 ∷ drop (length name + 1) junk)
    else fault

-- A fresh topic replaces the pointer of an old one.
unfoldable pub enter_topic : Name → Client → Client
enter_topic name c = record c {
  topics = Map.insert name c.next c.topics;
  heap = Map.insert c.next new_topic c.heap;
  next = c.next + 1;
}

-- The allocator stands for the contents of the stack as well.
unfoldable pub subscribe : Allocator → Name → Client → Result Client
subscribe a name c = do
  msg ← str_msg (a.malloc str_msg_size) name
  request (htonl cs_subscribe ++ msg) (enter_topic name c)

unfoldable pub publish : Allocator → Name → Topic → Client → Result Client
publish a name t c = do p ← to_message a cs_publish name t; request p c

unfoldable pub simple_msg : ℕ → Client → Result Client
simple_msg msg c = request (htonl msg) c
