-- ===== src/Exceptions/Tests.antt =====
-- The message of a refused connection.
use diamond_apparatus.Base.{◌≡◌, ℕ, List, [], ◌∷◌, arith}
use diamond_apparatus.Base.Int.{ℤ, pos}
use diamond_apparatus.Base.Text.{codes}
use diamond_apparatus.Base.Result.{ok, error_connecting, ◌>>=◌}
use diamond_apparatus.Exceptions.{text, make, copies, message, what, what-text}

abbrev refusal : ℤ → List ℕ
refusal err = codes "Connection refused"

-- An array that held no string.
abbrev ones : List ℕ
ones = 1 ∷ 1 ∷ []

what-text_example :
    (copies (ones ∷ ones ∷ []) (make 111 (text error_connecting)) >>= what refusal)
    ≡ ok (message refusal (pos 111) (text error_connecting))
what-text_example = what-text refusal 111 error_connecting (ones ∷ ones ∷ []) (omega arith)
