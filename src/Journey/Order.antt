-- ===== src/Journey/Order.antt =====
-- Publications that one client makes, one after another.
use diamond_apparatus.Base.{
  ℕ, ◌^◌, ◌<◌, ◌≡◌, ◌≢◌, refl, ap, sym, subst, ◌∙◌, true, false, some, List, [], ◌∷◌, ◌++◌, map,
  length, append_assoc, append-nil,
}
use diamond_apparatus.Base.Order.{nat_ord, bytes_ord}
use diamond_apparatus.Base.Result.{ok}
use diamond_apparatus.Map
use diamond_apparatus.Map.Laws.{find-insert_self}
use diamond_apparatus.Map.Sorted.{IsSorted}
use diamond_apparatus.Map.Multi.{member, at-enter, member-enter}
use diamond_apparatus.Topic.{Datum, Topic}
use diamond_apparatus.Topic.Message.Encode.{encode}
use diamond_apparatus.Tcp.Send.Frames.{frame, stream}
use diamond_apparatus.Tcp.Receive.{TcpReceiver, bytes_of}
use diamond_apparatus.Tcp.Receive.Chunks.{IsFlowing}
use diamond_apparatus.Tcp.Receive.Phases.{IsIdle}
use diamond_apparatus.Messages.{cs_publish, sc_notify}
use diamond_apparatus.Server.{Name, Platform, Server, ClientInServer, stats_name}
use diamond_apparatus.Server.Loop.{Ready, serve_all, serve_ready, keep_receiver, no_client}
use diamond_apparatus.Server.Delivery.{IsPublication}
use diamond_apparatus.Client.Thread.Stream.{frames}
use diamond_apparatus.Journey.{behind, serve_publication, stream-behind}

-- The server between two packets of a client, with a topic that is there and that another
-- descriptor is subscribed to, but not to the statistics.
pub record IsBetween (n : Name) (publisher subscriber : ℕ) (s : Server) : Type 0 where
  pub quiet : s.net.script ≡ []
  pub apart : publisher ≢ s.listenfd
  pub k : ClientInServer
  pub found : Map.find publisher s.clients ≡ some k
  pub idle : IsIdle k.r
  pub t : Topic
  pub there : Map.find n s.topics ≡ some t
  pub sorted : (m : Name) → IsSorted (Map.at [] m s.subscribers)
  pub told : member n subscriber s.subscribers ≡ true
  pub untold : member stats_name subscriber s.subscribers ≡ false

-- The descriptor is ready with the bytes of a publication of some items.
pub record Carries (n : Name) (publisher : ℕ) (e : Ready) (d : List Datum) : Type 0 where
  pub fd : e.fd ≡ publisher
  pub publication : IsPublication n d
  pub small : length (encode cs_publish n d) < 2 ^ 31
  pub flows : IsFlowing e.events
  pub bytes : bytes_of e.events ≡ frame (encode cs_publish n d)

abbrev pub CarryAll : Name → ℕ → List Ready → List (List Datum) → Type 0
CarryAll n fd [] [] = Unit {0}
CarryAll n fd (e ∷ es) (d ∷ ds) = Carries n fd e d × CarryAll n fd es ds
CarryAll n fd _ _ = ⊥

module _ (pf : Platform) (n : Name) (other : n ≢ stats_name) (subscriber : ℕ) where
  still-IsBetween :
      (publisher now : ℕ) (d : List Datum) (v : IsPublication n d) (s : Server)
      (b : IsBetween n publisher subscriber s) (r : TcpReceiver)
      → IsIdle r
      → IsBetween n publisher subscriber
          (no_client (keep_receiver publisher r (behind pf n d v now b.k b.t s)))
  unfolding keep_receiver
  still-IsBetween publisher now d v s b r idle = record {
    quiet = b.quiet;
    apart = b.apart;
    k = record { fd = publisher; r = r };
    found = find-insert_self publisher (record { fd = publisher; r = r }) s.clients;
    idle = idle;
    t = record b.t { d = d };
    there = find-insert_self n (record b.t { d = d }) _;
    sorted = λ m. subst IsSorted (sym (same_set m)) (b.sorted m);
    told =
        member-enter n n subscriber _ ∙ member-enter n stats_name subscriber s.subscribers ∙ b.told;
    untold =
        member-enter stats_name n subscriber _
        ∙ member-enter stats_name stats_name subscriber s.subscribers
        ∙ b.untold;
  }
    where
      same_set :
          (m : Name)
          → Map.at [] m (Map.enter [] n (Map.enter [] stats_name s.subscribers))
            ≡ Map.at [] m s.subscribers
      same_set m =
          at-enter [] m n (Map.enter [] stats_name s.subscribers)
          ∙ at-enter [] m stats_name s.subscribers

  -- One of the events.
  serve_one :
      (publisher : ℕ) (e : Ready) (d : List Datum) (s : Server)
      → IsBetween n publisher subscriber s
      → Carries n publisher e d
      → (s' : Server) × (serve_ready pf e s ≡ ok s')
        × (stream subscriber s'.net.out
            ≡ stream subscriber s.net.out ++ frame (encode sc_notify n d))
        × IsBetween n publisher subscriber s'
  unfolding keep_receiver
  serve_one publisher e d s b' c =
      let b = subst (λ fd. IsBetween n fd subscriber s) (sym c.fd) b' in
      let (r, served, idle) =
        serve_publication pf n d c.publication e b.k b.t s b.quiet b.apart b.found b.idle other
          b.there c.flows c.bytes c.small in
      let s' : Server =
        no_client (keep_receiver e.fd r (behind pf n d c.publication e.now b.k b.t s)) in
      (
        s',
        served,
        stream-behind pf n d c.publication subscriber e.now b.k b.t s b.sorted b.told b.untold,
        subst (λ fd. IsBetween n fd subscriber s') c.fd
            (still-IsBetween e.fd e.now d c.publication s b r idle),
      )

  -- The publications of one client, its receiver between two packets, to one topic that is already
  -- there and is not "stats", its name a C string of at most 128 bytes and the items well formed, one
  -- after another and in any pieces, while every write is complete, their packets of fewer than 2^31
  -- bytes: the server serves them all, and puts on the stream of a subscriber of the topic that is
  -- not subscribed to "stats" their notifications, in the same order, each once, and nothing else.
  pub serve_all-frames :
      (publisher : ℕ) (es : List Ready) (ds : List (List Datum)) (s : Server)
      → IsBetween n publisher subscriber s
      → CarryAll n publisher es ds
      → (s' : Server) × (serve_all pf es s ≡ ok s')
        × (stream subscriber s'.net.out
            ≡ stream subscriber s.net.out ++ frames (map (encode sc_notify n) ds))
  unfolding serve_all keep_receiver
  serve_all-frames publisher [] [] s b c = (s, refl, sym (append-nil (stream subscriber s.net.out)))
  serve_all-frames publisher [] (d ∷ ds) s b c = absurd c
  serve_all-frames publisher (e ∷ es) [] s b c = absurd c
  serve_all-frames publisher (e ∷ es) (d ∷ ds) s b (c, cs) =
      let (u, served, sent, still) = serve_one publisher e d s b c in
      let (t, rest, behind) = serve_all-frames publisher es ds u still cs in
      (
        t,
        rw served rest,
        behind
            ∙ ap (λ xs. xs ++ frames (map (encode sc_notify n) ds)) sent
            ∙ append_assoc (stream subscriber s.net.out) (frame (encode sc_notify n d))
                (frames (map (encode sc_notify n) ds)),
      )
