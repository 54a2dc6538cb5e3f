-- ===== src/Tcp/Receive/Phases.antt =====
-- What the two phases of update()'s loop make of the bytes that a read took.
use diamond_apparatus.Base.{
  ℕ, suc, ◌+◌, ◌-◌, ◌≤◌, ◌<◌, ◌≡◌, refl, ap, sym, ◌∙◌, true, false, none, some, List, [], ◌∷◌, ◌++◌,
  arith, length, take_all, length-append, append_assoc, append-nil, append_cut, Bool-cases, ◌==◌,
  ◌⊎◌, inl, inr,
}
use diamond_apparatus.Base.Bytes.{htonl, ntohl, ntohl-htonl, length-htonl, IsWord}
use diamond_apparatus.Tcp.Send.Frames.{frame}
use diamond_apparatus.Tcp.Receive.{
  TcpReceiver, Loop, Flow, on, leave, deliver, then_flow, force_check, size_received, size_bytes_in,
  data_bytes_in, fill_at, word_of, bytes_of,
}
use diamond_apparatus.Tcp.Receive.Chunks.{IsFlowing, Taken}

-- A call in the middle of a packet: some bytes of its size are there, and the rest of the stream
-- completes the packet.
pub record InSize (pkt rest : List ℕ) (l : Loop) : Type 0 where
  pub no_buffer : l.r.recvdata ≡ none
  pub counted : l.r.recvct ≡ length l.r.size_bytes
  pub partial : l.r.recvct < 4
  pub stream_eq : l.r.size_bytes ++ bytes_of l.net ≡ frame pkt ++ rest
  pub flows : IsFlowing l.net
  pub unforced : l.r.is_force_exit ≡ false

-- The size is there, and some bytes of the payload.
pub record InData (pkt rest : List ℕ) (l : Loop) : Type 0 where
  pub buf : List ℕ
  pub buffer : l.r.recvdata ≡ some buf
  pub counted : l.r.recvct ≡ length buf
  pub partial : length buf < length pkt
  pub sized : l.r.recvsize ≡ length pkt
  pub stream_eq : buf ++ bytes_of l.net ≡ pkt ++ rest
  pub flows : IsFlowing l.net
  pub unforced : l.r.is_force_exit ≡ false

-- The state that a receiver has between two packets.
pub record IsIdle (r : TcpReceiver) : Type 0 where
  pub empty : r.recvct ≡ 0
  pub no_size : r.size_bytes ≡ []
  pub no_buffer : r.recvdata ≡ none
  pub unforced : r.is_force_exit ≡ false

-- What a round comes to: it goes on with fewer bytes to read, or it delivers the packet, idle
-- again, with the rest of the stream unread.
abbrev pub Progress : List ℕ → List ℕ → ℕ → Flow → Type 0
Progress pkt rest m (on l) = (InSize pkt rest l ⊎ InData pkt rest l) × (length (bytes_of l.net) < m)
Progress pkt rest m (leave b l) = ⊥
Progress pkt rest m (deliver p l) =
    (p ≡ pkt) × IsIdle l.r × (bytes_of l.net ≡ rest) × IsFlowing l.net

pub Progress-mono :
    (pkt rest : List ℕ) (m n : ℕ) (f : Flow) → m ≤ n → Progress pkt rest m f → Progress pkt rest n f
Progress-mono pkt rest m n (on l) h p = (p.0, omega arith)
Progress-mono pkt rest m n (leave b l) h p = p
Progress-mono pkt rest m n (deliver q l) h p = p

word_of-htonl : (n : ℕ) → IsWord n → word_of (ntohl (htonl n)) ≡ n
word_of-htonl n h = rw (← append-nil (htonl n)) (rw (ntohl-htonl n [] h))

-- The loop when the first phase has taken the bytes.
abbrev grown : (l : Loop) → Taken (4 - l.r.recvct) l.net → Loop
grown l t = record {
  r = record l.r {
    size_bytes = fill_at l.r.recvct l.r.size_bytes (t.b ∷ t.bs);
    recvct = l.r.recvct + suc (length t.bs);
  };
  net = t.net';
  rv = true;
}

module _ (pkt rest : List ℕ) where
  pub data_left : (l : Loop) (v : InData pkt rest l) → 0 < length (bytes_of l.net)
  data_left l v =
      omega
        (arith, ap length v.stream_eq, length-append v.buf (bytes_of l.net), length-append pkt rest)

  -- What the second phase does with the bytes that a read took.
  pub data_step :
      (l : Loop) (v : InData pkt rest l) (t : Taken (l.r.recvsize - l.r.recvct) l.net)
      → Progress pkt rest (length (bytes_of l.net)) (
          then_flow
            (data_bytes_in v.buf (t.b ∷ t.bs) (record l { net = t.net' }))
            λ l. force_check l)
  unfolding data_bytes_in
  data_step l v t = elim (Bool-cases (l.r.recvct + suc (length t.bs) == l.r.recvsize)) [
    | inl done ↦
        let (whole, after) =
          append_cut now (bytes_of t.net') pkt rest joined (ground (arith, size)) in
        rw done (
          filled ∙ whole,
          record { empty = refl; no_size = refl; no_buffer = refl; unforced = v.unforced },
          after,
          t.flows,
        )
    | inr more ↦
        rw (more, v.unforced)
          (
            inr (record {
              buf = fill_at l.r.recvct v.buf (t.b ∷ t.bs);
              buffer = refl;
              counted = rw filled (omega (arith, size));
              partial = rw filled (ground (arith, size));
              sized = v.sized;
              stream_eq = rw filled joined;
              flows = t.flows;
              unforced = refl;
            }),
            fewer,
          )
  ]
    where
      now : List ℕ
      now = v.buf ++ t.b ∷ t.bs

      size : length now ≡ length v.buf + suc (length t.bs)
      size = length-append v.buf (t.b ∷ t.bs)

      filled : fill_at l.r.recvct v.buf (t.b ∷ t.bs) ≡ now
      filled = rw (take_all l.r.recvct v.buf (omega arith))

      joined : now ++ bytes_of t.net' ≡ pkt ++ rest
      joined =
          append_assoc v.buf (t.b ∷ t.bs) (bytes_of t.net')
          ∙ ap (λ xs. v.buf ++ xs) (sym t.splits)
          ∙ v.stream_eq

      fewer : length (bytes_of t.net') < length (bytes_of l.net)
      fewer = omega (arith, ap length t.splits, length-append (t.b ∷ t.bs) (bytes_of t.net'))

  -- What the first phase does with the bytes that a read took: the loop is still in the size, or the
  -- buffer for the payload has been allocated.
  pub size_step :
      (l : Loop) (v : InSize pkt rest l) (t : Taken (4 - l.r.recvct) l.net)
      → 0 < length pkt
      → IsWord (length pkt)
      → (m : Loop) × (size_bytes_in (t.b ∷ t.bs) (record l { net = t.net' }) ≡ on m)
        × (InSize pkt rest m ⊎ InData pkt rest m)
        × (length (bytes_of m.net) < length (bytes_of l.net))
  unfolding size_bytes_in
  size_step l v t nonempty small = elim (Bool-cases (l.r.recvct + suc (length t.bs) == 4)) [
    | inl done ↦
        let (whole, after) =
          append_cut now (bytes_of t.net') (htonl (length pkt)) (pkt ++ rest)
            (joined ∙ append_assoc (htonl (length pkt)) pkt rest)
            (ground (arith, size, length-htonl (length pkt))) in
        (
          size_received (grown l t),
          rw done,
          inr (record {
            buf = [];
            buffer = refl;
            counted = refl;
            partial = nonempty;
            sized = rw (filled ∙ whole) (word_of-htonl (length pkt) small);
            stream_eq = after;
            flows = t.flows;
            unforced = v.unforced;
          }),
          fewer,
        )
    | inr more ↦ (
      grown l t,
      rw more,
      inl (record {
        no_buffer = v.no_buffer;
        counted = rw filled (omega (arith, size));
        partial = ground arith;
        stream_eq = rw filled joined;
        flows = t.flows;
        unforced = v.unforced;
      }),
      fewer,
    )
  ]
    where
      now : List ℕ
      now = l.r.size_bytes ++ t.b ∷ t.bs

      size : length now ≡ length l.r.size_bytes + suc (length t.bs)
      size = length-append l.r.size_bytes (t.b ∷ t.bs)

      filled : fill_at l.r.recvct l.r.size_bytes (t.b ∷ t.bs) ≡ now
      filled = rw (take_all l.r.recvct l.r.size_bytes (omega arith))

      joined : now ++ bytes_of t.net' ≡ frame pkt ++ rest
      joined =
          append_assoc l.r.size_bytes (t.b ∷ t.bs) (bytes_of t.net')
          ∙ ap (λ xs. l.r.size_bytes ++ xs) (sym t.splits)
          ∙ v.stream_eq

      fewer : length (bytes_of t.net') < length (bytes_of l.net)
      fewer = omega (arith, ap length t.splits, length-append (t.b ∷ t.bs) (bytes_of t.net'))
