-- ===== src/Topic/Csv.antt =====
-- The comma separated line of a topic.
use diamond_apparatus.Base.{
  ℕ, suc, ◌+◌, ◌-◌, ◌≡◌, refl, true, some, List, [], ◌∷◌, ◌++◌, arith, length, get_elem?,
  length-append, append_assoc, append-nil, if◌then◌else◌, ltb, lt→ltb,
}
use diamond_apparatus.Topic.{
  Datum, Topic, append_to_string_stream, append_csv_loop, append_csv_to_string_stream,
}

-- The items with a comma between each two.
abbrev pub joined : (ℕ → List ℕ) → List Datum → List ℕ
joined show_float [] = []
joined show_float (q ∷ []) = append_to_string_stream show_float q
joined show_float (q ∷ r ∷ qs) =
    append_to_string_stream show_float q ++ b',' ∷ joined show_float (r ∷ qs)

get_elem?-middle :
    (pre : List Datum) (q : Datum) (qs : List Datum)
    → get_elem? (pre ++ q ∷ qs) (length pre) ≡ some q
get_elem?-middle [] q qs = refl
get_elem?-middle (p ∷ pre) q qs = get_elem?-middle pre q qs

append_csv_loop-suc :
    (f : ℕ → List ℕ) (d : List Datum) (n i : ℕ) (q : Datum)
    → get_elem? d i ≡ some q
    → append_csv_loop f d (suc n) i
      ≡ append_to_string_stream f q
        ++ ((if ltb i (length d - 1) then b',' ∷ [] else []) ++ append_csv_loop f d n (i + 1))
unfolding append_csv_loop
append_csv_loop-suc f d n i q h = rw h

-- The loop, from the index at which `qs` begins, prints `qs`.
append_csv_loop-joined :
    (show_float : ℕ → List ℕ) (pre qs : List Datum)
    → append_csv_loop show_float (pre ++ qs) (length qs) (length pre) ≡ joined show_float qs
append_csv_loop-joined f pre [] = unfold append_csv_loop in refl
append_csv_loop-joined f pre (q ∷ []) =
    rw (append_csv_loop-suc f _ 0 _ q (get_elem?-middle pre q [])) (
      unfold append_csv_loop in
      ground (arith, length-append pre (q ∷ []), append-nil (append_to_string_stream f q)))
append_csv_loop-joined f pre (q ∷ r ∷ qs) =
    let ih = append_csv_loop-joined f (pre ++ q ∷ []) (r ∷ qs) in
    let ih' = rw (append_assoc pre (q ∷ []) (r ∷ qs), length-append pre (q ∷ [])) at ih in
    rw (append_csv_loop-suc f _ (suc (length qs)) _ q (get_elem?-middle pre q (r ∷ qs))) (
      let more : ltb (length pre) (length (pre ++ q ∷ r ∷ qs) - 1) ≡ true =
        lt→ltb _ _ (omega (arith, length-append pre (q ∷ r ∷ qs))) in
      rw (more, ih'))

-- The printed line is the items of the topic in order, a comma between each two.
pub append_csv_to_string_stream-joined :
    (show_float : ℕ → List ℕ) (t : Topic)
    → append_csv_to_string_stream show_float t ≡ joined show_float t.d
unfolding append_csv_to_string_stream
append_csv_to_string_stream-joined f t = append_csv_loop-joined f [] t.d
