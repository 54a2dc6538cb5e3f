-- ===== src/Server/Streams.antt =====
-- What a descriptor has been sent when a packet is delivered to a set of them, and what the server
-- does with a descriptor whose bytes are a packet.
use diamond_apparatus.Base.{
  ℕ, ◌<◌, ◌≡◌, ◌≢◌, refl, ap, sym, ◌∙◌, Bool, true, false, some, List, [], ◌∷◌, ◌++◌, arith, length,
  append_assoc, append-nil, ◌==◌, if◌then◌else◌,
}
use diamond_apparatus.Base.Order.{nat_ord, bytes_ord}
use diamond_apparatus.Base.Result.{ok}
use diamond_apparatus.Base.Bytes.{htonl, IsWord}
use diamond_apparatus.Map
use diamond_apparatus.Map.{keys, same}
use diamond_apparatus.Map.Sorted.{IsSorted, find-Above}
use diamond_apparatus.Map.Laws.{same_refl}
use diamond_apparatus.Tcp.Send.{Net}
use diamond_apparatus.Tcp.Send.Frames.{frame, stream, stream-append, sent_frame}
use diamond_apparatus.Tcp.Receive.{TcpReceiver, bytes_of}
use diamond_apparatus.Tcp.Receive.Chunks.{IsFlowing}
use diamond_apparatus.Tcp.Receive.Phases.{IsIdle}
use diamond_apparatus.Tcp.Receive.Reassembly.{update-Delivers}
use diamond_apparatus.Topic.Message.Encode.{encode}
use diamond_apparatus.Messages.{sc_notify}
use diamond_apparatus.Map.Multi.{member}
use diamond_apparatus.Server.{Platform, Server, ClientInServer, stats_name}
use diamond_apparatus.Server.Returns.{new_stats, stats_published}
use diamond_apparatus.Server.Process.{process}
use diamond_apparatus.Server.Loop.{
  Ready, serve_ready, serve_client, after_update, process_packet, keep_receiver, no_client,
}
use diamond_apparatus.Server.Delivery.{deliveries, delivered}

stream-frame :
    (fd g : ℕ) (p : List ℕ) (out : List (ℕ × List ℕ))
    → stream fd ((g, htonl (length p)) ∷ (g, p) ∷ out)
      ≡ (if same fd g then frame p else []) ++ stream fd out
unfolding stream
stream-frame fd g p out = by_test (same fd g) (g == fd) (ground arith)
  where
    by_test :
        (b c : Bool)
        → c ≡ b
        → (if c then htonl (length p) else []) ++ ((if c then p else []) ++ stream fd out)
          ≡ (if b then frame p else []) ++ stream fd out
    by_test true true e = sym (append_assoc (htonl (length p)) p (stream fd out))
    by_test true false e = cc
    by_test false true e = cc
    by_test false false e = refl

-- A packet that is delivered to a set of descriptors is on the stream of each member once, and on no
-- other.
pub stream-deliveries :
    {V : Type 0} (fd : ℕ) (p : List ℕ) (fds : Map.Map ℕ V)
    → IsSorted fds
    → stream fd (deliveries (keys fds) p) ≡ (if Map.has fd fds then frame p else [])
unfolding stream Map.has Map.find
stream-deliveries fd p [] s = refl
stream-deliveries fd p ((g, u) ∷ fds) s =
    stream-frame fd g p (deliveries (keys fds) p)
    ∙ ground (
      arith,
      stream-deliveries fd p fds s.1,
      find-Above g fds s.0,
      nat_ord.cmp_eq fd g,
      append-nil (frame p),
    )

pub stream-delivered :
    {V : Type 0} (fd : ℕ) (fds : Map.Map ℕ V) (p : List ℕ) (s : Server)
    → IsSorted fds
    → stream fd (delivered (keys fds) p s).net.out
      ≡ stream fd s.net.out ++ (if Map.has fd fds then frame p else [])
stream-delivered fd fds p s sorted =
    stream-append fd s.net.out (deliveries (keys fds) p)
    ∙ ap (λ xs. stream fd s.net.out ++ xs) (stream-deliveries fd p fds sorted)

pub stream-sent :
    (fd : ℕ) (p : List ℕ) (net : Net)
    → stream fd (sent_frame fd p net).out ≡ stream fd net.out ++ frame p
stream-sent fd p net =
    stream-append fd net.out ((fd, htonl (length p)) ∷ (fd, p) ∷ [])
    ∙ ap (λ xs. stream fd net.out ++ xs) (stream-frame fd fd p [] ∙ own)
  where
    own : (if same fd fd then frame p else []) ++ stream fd [] ≡ frame p
    own = rw (same_refl fd) (unfold stream in append-nil (frame p))

-- A descriptor of a client whose bytes, in any pieces, are one packet, for which process() returns.
pub serve_packet :
    (pf : Platform) (p : List ℕ) (e : Ready) (k : ClientInServer) (s : Server) {t : Server}
    → 0 < length p
    → IsWord (length p)
    → e.fd ≢ s.listenfd
    → Map.find e.fd s.clients ≡ some k
    → IsIdle k.r
    → IsFlowing e.events
    → bytes_of e.events ≡ frame p
    → process pf e.now p (record s { cur_client = some k.fd }) ≡ ok t
    → (r : TcpReceiver) × (serve_ready pf e s ≡ ok (no_client (keep_receiver e.fd r t))) × IsIdle r
unfolding serve_ready serve_client after_update process_packet
serve_packet pf p e k s pos small apart found idle flows sent processed =
    let heard =
      update-Delivers p [] k.r e.events pos small idle flows (sent ∙ sym (append-nil (frame p))) in
    let client : (e.fd == s.listenfd) ≡ false = ground arith in
    (
      heard.u.receiver,
      rw (client, found, heard.ends, heard.packet, processed, heard.returned) refl,
      heard.idle,
    )

-- The statistics come to the stream of a descriptor that is subscribed to them.
pub stream-stats_told :
    (pf : Platform) (fd now : ℕ) (s : Server)
    → IsSorted (Map.at [] stats_name s.subscribers)
    → stream fd (stats_published pf now s).net.out
      ≡ stream fd s.net.out
        ++ (if member stats_name fd s.subscribers
            then frame (encode sc_notify stats_name (new_stats pf now s).d)
            else [])
unfolding member
stream-stats_told pf fd now s sorted =
    stream-delivered fd (Map.at [] stats_name s.subscribers)
      (encode sc_notify stats_name (new_stats pf now s).d) s sorted

-- The statistics put nothing on the stream of a descriptor that is not subscribed to them.
pub stream-stats_published :
    (pf : Platform) (fd now : ℕ) (s : Server)
    → IsSorted (Map.at [] stats_name s.subscribers)
    → member stats_name fd s.subscribers ≡ false
    → stream fd (stats_published pf now s).net.out ≡ stream fd s.net.out
stream-stats_published pf fd now s sorted untold =
    stream-stats_told pf fd now s sorted ∙ rw untold (append-nil (stream fd s.net.out))
