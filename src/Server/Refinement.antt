-- ===== src/Server/Refinement.antt =====
-- server.cpp does what a broker promises.
use diamond_apparatus.Base.{ℕ, ◌+◌, ◌≡◌, refl, ap, sym, ◌∙◌, some, List, [], ◌∷◌, ◌++◌, arith}
use diamond_apparatus.Base.Order.{nat_ord, bytes_ord}
use diamond_apparatus.Base.Result.{Result, ok, ◌>>=◌, Ensures, Ensures-bind}
use diamond_apparatus.Base.Bytes.{ntohl-htonl, c_string-append}
use diamond_apparatus.Map
use diamond_apparatus.Map.{Map, same}
use diamond_apparatus.Map.Multi.{member-join}
use diamond_apparatus.Topic.{Datum}
use diamond_apparatus.Topic.Message.Encode.{encode}
use diamond_apparatus.Messages.{cs_publish, cs_subscribe, cs_killserver, cs_clearserver}
use diamond_apparatus.Server.{
  Name, Platform, Server, rebuild_stats_topic, send_present, subscribe, publish, getfd,
}
use diamond_apparatus.Server.Process.{clear_server, subscribe_packet, dispatch, process}
use diamond_apparatus.Server.Delivery.{IsPublication}
use diamond_apparatus.Server.Keeps.{
  Keeps, Connections, publish-Keeps, rebuild_stats_topic-Keeps, send_present-Keeps,
}
use diamond_apparatus.Server.SameTopics.{SameTopics, send_present-SameTopics}
use diamond_apparatus.Server.Broker.{
  Broker, Request, publishes, subscribes, kills, clears, obey, IsPacket, items_of, Refines,
}
use diamond_apparatus.Base.Result.{Ensures-both, Ensures-mono}
use diamond_apparatus.Server.Shows.{Shows, rebuild_stats_topic-Shows, publish-Shows}

-- What keeps the subscriptions and shows the items of a broker looks like it.
pub Refines-of_Keeps :
    {s t : Server} {b : Broker} (c : Broker)
    → Refines s b
    → Keeps s t
    → Shows t.topics c.items
    → c.subscribed ≡ b.subscribed
    → c.ending ≡ b.ending
    → Refines t c
Refines-of_Keeps c r k shows e f = record {
  items = shows;
  subscribed = λ n fd. k.members n fd ∙ r.subscribed n fd ∙ ap (λ g. g n fd) (sym e);
  ending = k.kill ∙ r.ending ∙ sym f;
}

pub getfd-ok : (fd : ℕ) (s : Server) → s.cur_client ≡ some fd → getfd s ≡ ok fd
unfolding getfd
getfd-ok fd s e = rw e

module _ (pf : Platform) where
  publishes-Refines :
      (fd : ℕ) (n : Name) (d : List Datum) (s : Server) (b : Broker)
      → IsPublication n d
      → Refines s b
      → Ensures (λ t. Refines t (obey fd (publishes n d) b)) (publish pf (encode cs_publish n d) s)
  publishes-Refines fd n d s b v r =
      Ensures-mono (λ t. Keeps s t × Shows t.topics (obey fd (publishes n d) b).items) _
        (publish pf (encode cs_publish n d) s)
        (Ensures-both (Keeps s) _ _ (publish-Keeps pf (encode cs_publish n d) s)
          (publish-Shows pf n d s b.items v r.items))
        λ t h. Refines-of_Keeps (obey fd (publishes n d) b) r h.0 h.1 refl refl

  subscribes-Refines :
      (fd : ℕ) (n : Name) (s : Server) (b : Broker)
      → Refines s b
      → Ensures (λ t. Refines t (obey fd (subscribes n) b)) (subscribe pf fd n s)
  unfolding subscribe
  subscribes-Refines fd n s b r =
      Ensures-mono (λ t. Keeps joined t × SameTopics joined t) _
        (send_present pf n (Map.find n s.topics) joined)
        (Ensures-both (Keeps joined) (SameTopics joined) _
          (send_present-Keeps pf n (Map.find n s.topics) joined)
          (send_present-SameTopics pf n (Map.find n s.topics) joined))
        λ t h. record {
          items = λ m user. ap (λ topics. items_of (Map.find m topics)) h.1 ∙ r.items m user;
          subscribed = λ m g.
              h.0.members m g
              ∙ ground (arith, member-join m n g fd s.subscribers, r.subscribed m g);
          ending = h.0.kill ∙ r.ending;
        }
    where
      joined : Server
      joined = record s {
        subscribers = Map.insert n (Map.insert fd tt (Map.at [] n s.subscribers)) s.subscribers;
        subtopics = Map.insert fd (Map.insert n tt (Map.at [] fd s.subtopics)) s.subtopics;
      }

  -- What the statistics leave of a server, before every request.
  behind_stats :
      (now fd : ℕ) (s : Server) (b c : Broker) (f : Server → Result Server)
      → Refines s b
      → s.cur_client ≡ some fd
      → ((u : Server) → Refines u b → u.cur_client ≡ some fd → Ensures (λ t. Refines t c) (f u))
      → Ensures
          (λ t. Refines t c)
          (rebuild_stats_topic pf now (record s { msgsrecvd = s.msgsrecvd + 1 }) >>= f)
  behind_stats now fd s b c f r cur k =
      let counted : Server = record s { msgsrecvd = s.msgsrecvd + 1 } in
      let r' : Refines counted b = record {
        items = r.items;
        subscribed = r.subscribed;
        ending = r.ending;
      } in
      Ensures-bind (λ u. Keeps counted u × Shows u.topics b.items) (λ t. Refines t c)
        (rebuild_stats_topic pf now counted) f
        (Ensures-both (Keeps counted) _ _ (rebuild_stats_topic-Keeps pf now counted)
          (rebuild_stats_topic-Shows pf now counted b.items r.items))
        λ u h.
          k u (Refines-of_Keeps b r' h.0 h.1 refl refl)
            (ap (λ (c : Connections). c.cur_client) h.0.connected ∙ cur)

  -- process(), of a packet that asks for something, for the client that is served, and whatever the
  -- writes return: if it returns, a server that looks like a broker looks like the broker that has
  -- obeyed. A publication replaces the items of its name, for every name but "topics" and "stats",
  -- and no other; a subscription is entered and no other changes; the request to end is kept; and
  -- the request to clear removes all items and no subscription.
  pub process-Refines :
      (now fd : ℕ) (q : Request) (p : List ℕ) (s : Server) (b : Broker)
      → IsPacket q p
      → s.cur_client ≡ some fd
      → Refines s b
      → Ensures (λ t. Refines t (obey fd q b)) (process pf now p s)
  unfolding process dispatch subscribe_packet clear_server Map.find
  process-Refines now fd (publishes n d) p s b (v, e) cur r = rw e (
      rw (ntohl-htonl cs_publish _ (omega arith))
        (behind_stats now fd s b _ _ r cur λ u r cur. publishes-Refines fd n d u b v r))
  process-Refines now fd (subscribes n) p s b (text, (rest, e)) cur r = rw e (
      rw (ntohl-htonl cs_subscribe (n ++ 0 ∷ rest) (omega arith)) (
        behind_stats now fd s b _ _ r cur λ u r cur.
          rw (getfd-ok fd u cur, c_string-append n rest text) (subscribes-Refines fd n u b r)))
  process-Refines now fd kills p s b (rest, e) cur r = rw e (
      rw (ntohl-htonl cs_killserver rest (omega arith)) (
        behind_stats now fd s b _ _ r cur
          λ u r cur. record { items = r.items; subscribed = r.subscribed; ending = refl }))
  process-Refines now fd clears p s b (rest, e) cur r = rw e (
      rw (ntohl-htonl cs_clearserver rest (omega arith)) (
        behind_stats now fd s b _ _ r cur λ u r cur. record {
          items = λ m user. refl;
          subscribed = r.subscribed;
          ending = r.ending;
        }))
