-- ===== src/Topic/Message/Encode.antt =====
-- The message format of data.cpp's opening comment, as an independent description: the words in
-- network order, the name with its length and its terminator, and each item behind its type byte.
use diamond_apparatus.Base.{
  ℕ, ◌+◌, ◌^◌, ◌<◌, ◌≡◌, List, [], ◌∷◌, ◌++◌, arith, length, length-append, All,
}
use diamond_apparatus.Base.Bytes.{htonl, length-htonl, IsText, IsWord}
use diamond_apparatus.Topic.{Datum, flt, str, raw, dt_float, dt_string}

abbrev pub encode_items : List Datum → List ℕ
encode_items [] = []
encode_items (flt f ∷ d) = dt_float ∷ (htonl f ++ encode_items d)
encode_items (str s ∷ d) = dt_string ∷ (htonl (length s) ++ (s ++ encode_items d))
encode_items (raw t ∷ d) = encode_items d

abbrev pub encode : ℕ → List ℕ → List Datum → List ℕ
encode msgtype name d =
    htonl msgtype ++ (htonl (length d) ++ ((length name + 1) ∷ (name ++ (0 ∷ encode_items d))))

-- The tag is DT_FLOAT or DT_STRING.
abbrev pub IsTagged : Datum → Type 0
IsTagged (flt f) = Unit {0}
IsTagged (str s) = Unit {0}
IsTagged (raw t) = ⊥

-- A length that fits an `int` together with a terminator.
abbrev pub IsIntLength : ℕ → Type 0
IsIntLength n = n + 1 < 2 ^ 31

-- A datum that a message can carry: its float has 32 bits, and its string is a C string whose
-- length fits.
abbrev pub IsWellFormed : Datum → Type 0
IsWellFormed (flt f) = IsWord f
IsWellFormed (str s) = IsText s × IsIntLength (length s)
IsWellFormed (raw t) = ⊥

pub IsTagged-of_well_formed : (d : List Datum) → All IsWellFormed d → All IsTagged d
IsTagged-of_well_formed [] h = tt
IsTagged-of_well_formed (flt f ∷ d) h = (tt, IsTagged-of_well_formed d h.1)
IsTagged-of_well_formed (str s ∷ d) h = (tt, IsTagged-of_well_formed d h.1)
IsTagged-of_well_formed (raw t ∷ d) h = absurd h.0

pub length-encode :
    (msgtype : ℕ) (name : List ℕ) (d : List Datum)
    → length (encode msgtype name d) ≡ 10 + length name + length (encode_items d)
length-encode msgtype name d = omega (
  arith,
  length-append (htonl msgtype)
      (htonl (length d) ++ ((length name + 1) ∷ (name ++ (0 ∷ encode_items d)))),
  length-append (htonl (length d)) ((length name + 1) ∷ (name ++ (0 ∷ encode_items d))),
  length-append name (0 ∷ encode_items d),
  length-htonl msgtype,
  length-htonl (length d),
)
