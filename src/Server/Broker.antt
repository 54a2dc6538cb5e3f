-- ===== src/Server/Broker.antt =====
-- What a broker promises, with nothing of how server.cpp keeps it: the latest items of each name,
-- who is subscribed to what, and whether it has been told to end.
use diamond_apparatus.Base.{
  ℕ, ◌≡◌, Bool, true, false, Option, none, some, List, ◌∷◌, ◌++◌, if◌then◌else◌,
}
use diamond_apparatus.Base.Order.{nat_ord, bytes_ord}
use diamond_apparatus.Base.Bytes.{htonl, IsText}
use diamond_apparatus.Map
use diamond_apparatus.Map.{Map, same}
use diamond_apparatus.Map.Multi.{member}
use diamond_apparatus.Topic.{Datum, Topic}
use diamond_apparatus.Topic.Message.Encode.{encode}
use diamond_apparatus.Messages.{cs_publish, cs_subscribe, cs_killserver, cs_clearserver}
use diamond_apparatus.Server.{Name, Server, topics_name, stats_name}
use diamond_apparatus.Server.Delivery.{IsPublication}

pub record Broker : Type 0 where
  pub items : Name → Option (List Datum)
  pub subscribed : Name → ℕ → Bool
  pub ending : Bool

-- What a client can ask for.
pub data Request : Type 0 where
  publishes : Name → List Datum → Request
  subscribes : Name → Request
  kills : Request
  clears : Request

abbrev pub obey : ℕ → Request → Broker → Broker
obey fd (publishes n d) b = record b { items = λ m. if same m n then some d else b.items m }
obey fd (subscribes n) b = record b {
  subscribed =
      λ m g. if same m n then (if same g fd then true else b.subscribed m g) else b.subscribed m g;
}
obey fd kills b = record b { ending = true }
obey fd clears b = record b { items = λ m. none }

-- A client goes, and its subscriptions with it.
abbrev pub forget : ℕ → Broker → Broker
forget fd b = record b { subscribed = λ m g. if same g fd then false else b.subscribed m g }

-- The packets of a request: of any bytes behind what is read of it.
abbrev pub IsPacket : Request → List ℕ → Type 0
IsPacket (publishes n d) p = IsPublication n d × (p ≡ encode cs_publish n d)
IsPacket (subscribes n) p =
    IsText n × ((rest : List ℕ) × (p ≡ htonl cs_subscribe ++ (n ++ 0 ∷ rest)))
IsPacket kills p = (rest : List ℕ) × (p ≡ htonl cs_killserver ++ rest)
IsPacket clears p = (rest : List ℕ) × (p ≡ htonl cs_clearserver ++ rest)

-- A name that the server does not publish under itself while it runs.
abbrev pub IsUser : Name → Type 0
IsUser n = (same n topics_name ≡ false) × (same n stats_name ≡ false)

abbrev pub items_of : Option Topic → Option (List Datum)
items_of none = none
items_of (some t) = some t.d

-- A server that looks like a broker.
pub record Refines (s : Server) (b : Broker) : Type 0 where
  pub items : (n : Name) → IsUser n → items_of (Map.find n s.topics) ≡ b.items n
  pub subscribed : (n : Name) (fd : ℕ) → member n fd s.subscribers ≡ b.subscribed n fd
  pub ending : s.server_kill ≡ b.ending
