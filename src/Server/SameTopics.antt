-- ===== src/Server/SameTopics.antt =====
-- What sends, and no more, leaves the stored topics of server.cpp as they are.
use diamond_apparatus.Base.{ℕ, ◌+◌, ◌≡◌, refl, sym, subst, Option, none, some, List, [], ◌∷◌}
use diamond_apparatus.Base.Order.{nat_ord, bytes_ord}
use diamond_apparatus.Base.Result.{Result, ok, throws, fault, Ensures, Ensures-bind, Ensures-any}
use diamond_apparatus.Map
use diamond_apparatus.Tcp.Send.{basesend}
use diamond_apparatus.Map.{Map, keys, same, branch}
use diamond_apparatus.Topic.{Topic}
use diamond_apparatus.Topic.Message.{to_message}
use diamond_apparatus.Server.{
  Name, Platform, Server, send_loop, send_to_subscribers, publish_internal, send_present, subscribe,
  respond, respond_to, getfd,
}
use diamond_apparatus.Messages.{sc_notify}
use diamond_apparatus.Server.Process.{subscribe_packet}
use diamond_apparatus.Base.Bytes.{c_string}

-- A call leaves the stored topics as they are.
abbrev pub SameTopics : Server → Server → Type 0
SameTopics s t = t.topics ≡ s.topics

send_loop-SameTopics : (fds p : List ℕ) (s : Server) → Ensures (SameTopics s) (send_loop fds p s)
unfolding send_loop
send_loop-SameTopics [] p s = refl
send_loop-SameTopics (fd ∷ fds) p s =
    Ensures-any (SameTopics s) (basesend fd p s.net) _
      λ net. send_loop-SameTopics fds p (record s { net = net; msgssent = s.msgssent + 1 })

pub send_to_subscribers-SameTopics :
    (n : Name) (p : List ℕ) (s : Server) → Ensures (SameTopics s) (send_to_subscribers n p s)
unfolding send_to_subscribers
send_to_subscribers-SameTopics n p s =
    send_loop-SameTopics (keys (Map.at [] n s.subscribers)) p
      (record s { subscribers = Map.enter [] n s.subscribers })

-- From the same topics to a predicate of them.
pub carry :
    (P : Map Name Topic → Type 0) (s : Server) (r : Result Server)
    → P s.topics
    → Ensures (SameTopics s) r
    → Ensures (λ t. P t.topics) r
carry P s (ok t) h e = subst P (sym e) h
carry P s (throws x) h e = tt
carry P s fault h e = tt

respond_to-SameTopics :
    (c : Option ℕ) (p : List ℕ) (s : Server) → Ensures (SameTopics s) (respond_to c p s)
unfolding respond_to
respond_to-SameTopics none p s = tt
respond_to-SameTopics (some fd) p s = Ensures-any (SameTopics s) (basesend fd p s.net) _ λ net. refl

module _ (pf : Platform) where
  pub publish_internal-SameTopics :
      (n : Name) (t : Topic) (s : Server) → Ensures (SameTopics s) (publish_internal pf n t s)
  unfolding publish_internal
  publish_internal-SameTopics n t s =
      Ensures-any (SameTopics s) (to_message pf.allocator sc_notify n t) _
        λ p. send_to_subscribers-SameTopics n p s

  pub send_present-SameTopics :
      (n : Name) (x : Option Topic) (s : Server) → Ensures (SameTopics s) (send_present pf n x s)
  unfolding send_present respond
  send_present-SameTopics n none s = refl
  send_present-SameTopics n (some t) s =
      Ensures-any (SameTopics s) (to_message pf.allocator sc_notify n t) _ λ p.
        Ensures-bind (SameTopics s) (SameTopics s) (respond_to s.cur_client p s) _
          (respond_to-SameTopics s.cur_client p s) λ u e. e

  pub subscribe_packet-SameTopics :
      (rest : List ℕ) (s : Server) → Ensures (SameTopics s) (subscribe_packet pf rest s)
  unfolding subscribe_packet subscribe
  subscribe_packet-SameTopics rest s =
      Ensures-any (SameTopics s) (getfd s) _
        λ fd. Ensures-any (SameTopics s) (c_string rest) _ λ n. send_present-SameTopics n _ _
