-- ===== src/Tcp/Receive/Chunks.antt =====
-- What a read() takes off a stream that flows.
use diamond_apparatus.Base.{
  ℕ, zero, suc, ◌-◌, ◌≤◌, ◌<◌, ◌≡◌, refl, ap, sym, ◌∙◌, List, [], ◌∷◌, ◌++◌, arith, length, take,
  drop, take-append-drop, length-take, length-drop, append_assoc, Bool-cases, leb, inl, inr,
}
use diamond_apparatus.Tcp.Receive.{Event, chunk, failure, got, read, bytes_of}

-- Every chunk holds a byte, and no read fails.
abbrev pub IsFlowing : List Event → Type 0
IsFlowing [] = Unit {0}
IsFlowing (chunk [] ∷ net) = ⊥
IsFlowing (chunk (b ∷ bs) ∷ net) = IsFlowing net
IsFlowing (failure ∷ net) = ⊥

-- What one read() takes off a flowing stream: at least a byte, at most `n`.
pub record Taken (n : ℕ) (net : List Event) : Type 0 where
  pub b : ℕ
  pub bs : List ℕ
  pub net' : List Event
  pub reads : read n net ≡ (got (b ∷ bs), net')
  pub splits : bytes_of net ≡ (b ∷ bs) ++ bytes_of net'
  pub fits : suc (length bs) ≤ n
  pub flows : IsFlowing net'

take-cons : (n b : ℕ) (bs : List ℕ) → 0 < n → take n (b ∷ bs) ≡ b ∷ take (n - 1) bs
take-cons zero b bs h = absurd (omega arith)
take-cons (suc n) b bs h = ap (λ k. b ∷ take k bs) (omega arith)

chunk-flows :
    (bs : List ℕ) (net : List Event) → 0 < length bs → IsFlowing net → IsFlowing (chunk bs ∷ net)
chunk-flows [] net h f = absurd (omega arith)
chunk-flows (b ∷ bs) net h f = f

pub read_flowing :
    (n : ℕ) (net : List Event) → 0 < n → IsFlowing net → 0 < length (bytes_of net) → Taken n net
read_flowing n [] pos f h = absurd (omega arith)
read_flowing n (failure ∷ net) pos f h = absurd f
read_flowing n (chunk [] ∷ net) pos f h = absurd f
read_flowing n (chunk (b ∷ bs) ∷ net) pos f h = elim (Bool-cases (leb (length (b ∷ bs)) n)) [
  | inl whole ↦ record {
    b = b;
    bs = bs;
    net' = net;
    reads = unfold read in rw whole;
    splits = refl;
    fits = ground arith;
    flows = f;
  }
  | inr part ↦ record {
    b = b;
    bs = take (n - 1) bs;
    net' = chunk (drop n (b ∷ bs)) ∷ net;
    reads = unfold read in rw (part, take-cons n b bs pos);
    splits =
        ap (λ xs. xs ++ bytes_of net) (sym halves)
        ∙ append_assoc (b ∷ take (n - 1) bs) (drop n (b ∷ bs)) (bytes_of net);
    fits = omega (arith, length-take (n - 1) bs);
    flows = chunk-flows (drop n (b ∷ bs)) net (ground (arith, length-drop n (b ∷ bs))) f;
  }
]
  where
    halves : (b ∷ take (n - 1) bs) ++ drop n (b ∷ bs) ≡ b ∷ bs
    halves =
        ap (λ xs. xs ++ drop n (b ∷ bs)) (sym (take-cons n b bs pos)) ∙ take-append-drop n (b ∷ bs)
