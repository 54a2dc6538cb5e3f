-- ===== src/Tcp/Receive/Rounds.antt =====
-- Each round of update()'s loop in the middle of a packet makes progress.
use diamond_apparatus.Base.{
  ℕ, ◌-◌, ◌<◌, ap, sym, subst, false, List, arith, length, length-append, if◌then◌else◌, ◌⊎◌, inl,
  inr,
}
use diamond_apparatus.Base.Bytes.{htonl, length-htonl, IsWord}
use diamond_apparatus.Tcp.Send.Frames.{frame}
use diamond_apparatus.Tcp.Receive.{
  Loop, on, leave, round, data_phase, first_phase, second_part, then_flow, force_check, data_read,
  size_phase, bytes_of,
}
use diamond_apparatus.Tcp.Receive.Chunks.{Taken, read_flowing}
use diamond_apparatus.Tcp.Receive.Phases.{
  InSize, InData, Progress, Progress-mono, data_left, data_step, size_step,
}

module _ (pkt rest : List ℕ) where
  data_round :
      (l : Loop) (v : InData pkt rest l)
      → Progress pkt rest (length (bytes_of l.net)) (second_part l)
  unfolding data_phase
  data_round l v =
      subst
        (λ o.
          Progress pkt rest (length (bytes_of l.net))
            (then_flow (data_phase o l) λ l. force_check l))
        (sym v.buffer)
        (subst
          (λ x.
            Progress pkt rest (length (bytes_of l.net))
              (then_flow (data_read v.buf x l) λ l. force_check l))
          (sym t.reads) (data_step pkt rest l v t))
    where
      t : Taken (l.r.recvsize - l.r.recvct) l.net
      t =
          read_flowing (l.r.recvsize - l.r.recvct) l.net (omega arith) v.flows
            (data_left pkt rest l v)

  size_left : (l : Loop) (v : InSize pkt rest l) → 0 < length (bytes_of l.net)
  size_left l v = omega (
    arith,
    ap length v.stream_eq,
    length-append l.r.size_bytes (bytes_of l.net),
    length-append (frame pkt) rest,
    length-append (htonl (length pkt)) pkt,
    length-htonl (length pkt),
  )

  second_phase :
      (m : Loop) (n : ℕ)
      → InSize pkt rest m ⊎ InData pkt rest m
      → length (bytes_of m.net) < n
      → Progress pkt rest n (second_part m)
  second_phase m n (inl v) h =
      subst (λ o. Progress pkt rest n (then_flow (data_phase o m) λ l. force_check l))
        (sym v.no_buffer)
        (unfold data_phase in
          subst (λ b. Progress pkt rest n (if b then leave false m else on m)) (sym v.unforced)
            (inl v, h))
  second_phase m n (inr v) h =
      Progress-mono pkt rest (length (bytes_of m.net)) n _ (omega arith) (data_round m v)

  -- Each round in the middle of a packet makes progress.
  pub round-Progress :
      (l : Loop)
      → 0 < length pkt
      → IsWord (length pkt)
      → InSize pkt rest l ⊎ InData pkt rest l
      → Progress pkt rest (length (bytes_of l.net)) (round l)
  unfolding round first_phase size_phase
  round-Progress l nonempty small (inr v) =
      subst
        (λ o. Progress pkt rest (length (bytes_of l.net)) (then_flow (first_phase o l) second_part))
        (sym v.buffer) (data_round l v)
  round-Progress l nonempty small (inl v) =
      let t : Taken (4 - l.r.recvct) l.net =
        read_flowing (4 - l.r.recvct) l.net (omega arith) v.flows (size_left l v) in
      let (m, goes, state, fewer) = size_step pkt rest l v t nonempty small in
      subst
        (λ o. Progress pkt rest (length (bytes_of l.net)) (then_flow (first_phase o l) second_part))
        (sym v.no_buffer)
        (subst
          (λ x.
            Progress pkt rest (length (bytes_of l.net)) (then_flow (size_phase x l) second_part))
          (sym t.reads)
          (subst (λ f. Progress pkt rest (length (bytes_of l.net)) (then_flow f second_part))
            (sym goes) (second_phase m (length (bytes_of l.net)) state fewer)))
