-- ===== src/Tcp/Send/Frames.antt =====
-- What basesend() puts on the wire.
use diamond_apparatus.Base.{
  ℕ, zero, suc, ◌<◌, ◌≡◌, refl, sym, ◌∙◌, true, false, List, [], ◌∷◌, ◌++◌, arith, length, take,
  take_all, length-take, append_assoc, ◌==◌, if◌then◌else◌,
}
use diamond_apparatus.Base.Result.{ok, throws, cannot_send}
use diamond_apparatus.Base.Bytes.{htonl}
use diamond_apparatus.Tcp.Send.{
  Net, Write, wrote, failed, epipe, other, write, attempt, send_loop, basesend, tries,
}

-- A packet behind its size.
abbrev pub frame : List ℕ → List ℕ
frame bs = htonl (length bs) ++ bs

-- The bytes that a descriptor has taken.
unfoldable pub stream : ℕ → List (ℕ × List ℕ) → List ℕ
stream fd [] = []
stream fd ((g, bs) ∷ out) = (if g == fd then bs else []) ++ stream fd out

pub stream-append :
    (fd : ℕ) (xs ys : List (ℕ × List ℕ)) → stream fd (xs ++ ys) ≡ stream fd xs ++ stream fd ys
unfolding stream
stream-append fd [] ys = refl
stream-append fd ((g, bs) ∷ xs) ys =
    rw (stream-append fd xs ys) (sym (append_assoc _ (stream fd xs) (stream fd ys)))

abbrev pub sent_frame : ℕ → List ℕ → Net → Net
sent_frame fd bs net = record net { out = net.out ++ (fd, htonl (length bs)) ∷ (fd, bs) ∷ [] }

attempt_complete :
    (fd : ℕ) (bs : List ℕ) (net : Net)
    → net.script ≡ []
    → 0 < length bs
    → attempt fd bs net ≡ (true, sent_frame fd bs net)
unfolding attempt write htonl
attempt_complete fd bs net e pos =
    rw
      (
        e,
        take_all (length bs) bs (omega arith),
        append_assoc net.out ((fd, htonl (length bs)) ∷ []) ((fd, bs) ∷ []),
      )
      (ground arith)

send_loop-done :
    (n fd : ℕ) (bs : List ℕ) (net : Net) {net' : Net}
    → attempt fd bs net ≡ (true, net')
    → send_loop (suc n) fd bs net ≡ ok net'
unfolding send_loop
send_loop-done n fd bs net h = rw h

send_loop-again :
    (n fd : ℕ) (bs : List ℕ) (net : Net) {net' : Net}
    → attempt fd bs net ≡ (false, net')
    → send_loop (suc n) fd bs net ≡ send_loop n fd bs net'
unfolding send_loop
send_loop-again n fd bs net h = rw h

-- While every write is complete, basesend() of a packet that is not empty puts the packet behind its
-- size, once, and returns.
pub basesend_complete :
    (fd : ℕ) (bs : List ℕ) (net : Net)
    → net.script ≡ []
    → 0 < length bs
    → basesend fd bs net ≡ ok (sent_frame fd bs net)
unfolding basesend
basesend_complete fd bs net e pos = send_loop-done 9 fd bs net (attempt_complete fd bs net e pos)

-- Behind a complete write of the size, a write that takes only the first `k` bytes of the packet, at
-- least one and not all, passes for success: basesend() returns, and the stream holds the whole size
-- in front of these bytes only.
pub basesend_short :
    (fd k : ℕ) (bs : List ℕ) (net : Net) (rest : List Write)
    → net.script ≡ wrote 4 ∷ wrote k ∷ rest
    → 0 < k
    → k < length bs
    → basesend fd bs net
      ≡ ok (record net {
        script = rest;
        out = net.out ++ (fd, htonl (length bs)) ∷ (fd, take k bs) ∷ [];
      })
unfolding basesend
basesend_short fd k bs net rest e pos short = send_loop-done 9 fd bs net (
    unfold attempt write htonl in
    rw (e, append_assoc net.out ((fd, htonl (length bs)) ∷ []) ((fd, take k bs) ∷ []))
      (ground (arith, length-take k bs)))

-- Failing calls, two for each round.
abbrev pub failures : ℕ → List Write → List Write
failures zero rest = rest
failures (suc n) rest = failed other ∷ failed other ∷ failures n rest

send_loop-failures :
    (n fd : ℕ) (bs : List ℕ) (net : Net) (rest : List Write)
    → net.script ≡ failures n rest
    → send_loop n fd bs net ≡ throws cannot_send
send_loop-failures zero fd bs net rest e = unfold send_loop in refl
send_loop-failures (suc n) fd bs net rest e =
    send_loop-again n fd bs net {net' = record net { script = failures n rest; errno = other }}
      (unfold attempt write in rw e)
    ∙ send_loop-failures n fd bs _ rest refl

-- Ten rounds in which both writes fail, and not with a broken pipe, end in an exception.
pub basesend_gives_up :
    (fd : ℕ) (bs : List ℕ) (net : Net) (rest : List Write)
    → net.script ≡ failures tries rest
    → basesend fd bs net ≡ throws cannot_send
unfolding basesend
basesend_gives_up fd bs net rest e = send_loop-failures tries fd bs net rest e

-- A broken pipe is no error to the caller: where both writes of the first round fail with it,
-- nothing is sent, and basesend() returns.
pub basesend_broken_pipe :
    (fd : ℕ) (bs : List ℕ) (net : Net) (rest : List Write)
    → net.script ≡ failed epipe ∷ failed epipe ∷ rest
    → basesend fd bs net ≡ ok (record net { script = rest; errno = epipe })
unfolding basesend
basesend_broken_pipe fd bs net rest e = send_loop-done 9 fd bs net (unfold attempt write in rw e)
