-- ===== src/Python.antt =====
-- python/diamondpython.c: the binding for Python 3, over the wrappers for C. What the interpreter's
-- own functions make of the arguments and the items of a sequence is an argument, and so are its
-- conversions between strings and UTF-8.
pub mod Exchange
pub mod Errors
pub mod Tests
use diamond_apparatus.Base.{
  ℕ, zero, suc, ◌+◌, Bool, true, false, Option, none, some, List, [], ◌∷◌, ◌==◌, if◌then◌else◌,
}
use diamond_apparatus.Base.Int.{ℤ, pos, pos_part, is_negative}
use diamond_apparatus.Base.Result.{Result, ok, fault, or_fault, Exception, ◌>>=◌}
use diamond_apparatus.Topic.{
  dt_float, dt_string, topic_nodata, topic_unchanged, topic_changed, topic_notfound,
  topic_notconnected, get_waitnone, get_waitnew, get_waitany,
}
use diamond_apparatus.Base.Text.{codes}
use diamond_apparatus.Client.{Name}
use diamond_apparatus.Client.Library.{Library}
use diamond_apparatus.Linkage
use diamond_apparatus.Linkage.{
  Linkage, error, newtopic, addfloat, addstring, fetchfloat, fetchstring, fetchtype, fetchsize,
  isfetchvalid,
}

-- PyUnicode_AsEncodedString() with "utf-8" and "ignore", `none` for NULL, and
-- PyUnicode_FromString().
pub record Interpreter : Type 1 where
  pub String : Type 0
  pub encoded : String → Option (List ℕ)
  pub decoded : List ℕ → Option String

-- An item of what is published: PyNumber_Check() holds, and PyFloat_AsDouble() comes to this value
-- as a float; or it is a string; or it is anything else.
pub data Item (py : Interpreter) : Type 0 where
  number : ℕ → Item py
  unicode : py.String → Item py
  neither : Item py

-- What PySequence_Size() and PySequence_Fast() make of an object: -1 for one without a size, and
-- `none` for NULL.
pub record Sequence (py : Interpreter) : Type 0 where
  pub size : ℤ
  pub fast : Option (List (Item py))

-- An item of the tuple that get() makes.
pub data Cell (py : Interpreter) : Type 0 where
  float : ℕ → Cell py
  string : py.String → Cell py

-- The texts of diamondapparatus.Error: what diamondapparatus_error() returns is the saved
-- exception's.
pub data Complaint : Type 0 where
  unable bad_sequence bad_type : Complaint
  saved : Option Exception → Complaint

-- What a function returns to the interpreter; a slot of a tuple is `none` for NULL, and `refused` is
-- NULL behind an exception of the interpreter's own.
pub data Outcome (py : Interpreter) : Type 0 where
  nothing refused : Outcome py
  truth : Bool → Outcome py
  tuple : List (Option (Cell py)) → Outcome py
  raises : Complaint → Outcome py

-- The constants of the module.
abbrev pub module_constants : List (List ℕ × ℕ)
module_constants =
    (codes "NoData", topic_nodata)
    ∷ (codes "Unchanged", topic_unchanged)
    ∷ (codes "Changed", topic_changed)
    ∷ (codes "NotFound", topic_notfound)
    ∷ (codes "NotConnected", topic_notconnected)
    ∷ (codes "WaitNone", get_waitnone)
    ∷ (codes "WaitNew", get_waitnew)
    ∷ (codes "WaitAny", get_waitany)
    ∷ []

abbrev pub optional_wait : Option ℕ → ℕ
optional_wait none = get_waitany
optional_wait (some wait) = wait

abbrev is_false : ℤ → Bool
is_false (pos n) = n == 0
is_false n = false

module _ (py : Interpreter) where
  -- What a function comes to: its outcome and the state of the wrappers.
  abbrev pub Called {ℓ} : Type ℓ → Type ℓ
  Called W = Result (Outcome py × Linkage W)

  abbrev pub slot_of : Option py.String → Option (Cell py)
  slot_of none = none
  slot_of (some s) = some (string s)

  abbrev pub joined :
      Option (Option (Cell py))
      → Option (List (Option (Cell py)))
      → Option (List (Option (Cell py)))
  joined none cells = none
  joined (some c) none = none
  joined (some c) (some cells) = some (c ∷ cells)

  abbrev pub tuple_of : Option (List (Option (Cell py))) → Outcome py
  tuple_of none = raises bad_type
  tuple_of (some cells) = tuple cells

module _ {ℓ} {W : Type ℓ} (py : Interpreter) where
  -- The loop of publish(), for the number of rounds that are left and the items that are: it comes
  -- to whether each item was a number or a string, and the state. GET_ITEM does not check its
  -- index.
  unfoldable pub add_loop : ℕ → List (Item py) → Linkage W → Result (Bool × Linkage W)
  add_loop zero items l = ok (true, l)
  add_loop (suc n) [] l = fault
  add_loop (suc n) (number f ∷ items) l = add_loop n items (addfloat f l)
  add_loop (suc n) (unicode s ∷ items) l = do
    bytes ← or_fault (py.encoded s)
    add_loop n items (addstring bytes l)
  add_loop (suc n) (neither ∷ items) l = ok (false, l)

  -- One round of the loop of get(); `none` is a type that it does not know.
  unfoldable pub cell_at : ℕ → Linkage W → Option (Option (Cell py))
  cell_at i l =
      if fetchtype (pos i) l == dt_float
      then some (some (float (fetchfloat (pos i) l)))
      else (if fetchtype (pos i) l == dt_string
          then some (slot_of py (py.decoded (fetchstring (pos i) l)))
          else none)

  -- The items from an index on, as many as are left.
  unfoldable pub fetch_loop : ℕ → ℕ → Linkage W → Option (List (Option (Cell py)))
  fetch_loop zero i l = some []
  fetch_loop (suc n) i l = joined py (cell_at i l) (fetch_loop n (i + 1) l)

  -- What get() returns once there is no error.
  unfoldable pub fetched : Linkage W → Outcome py
  fetched l = if isfetchvalid l then tuple_of py (fetch_loop (fetchsize l) 0 l) else truth false

  -- Behind a wrapper that returns a number; a negative one is an error.
  abbrev pub unless_negative :
      (Linkage W → Complaint) → (Linkage W → Outcome py) → ℤ × Linkage W → Outcome py × Linkage W
  unless_negative complaint value (n, l) =
      (if is_negative n then raises (complaint l) else value l, l)

  abbrev pub saved_error : Linkage W → Complaint
  saved_error l = saved (error l)

  module _ (lib : Library W) where
    -- CHKRUN, in front of the rest of a function.
    abbrev pub while_running : Linkage W → Called py W → Called py W
    while_running l r = if is_false (Linkage.isrunning lib l) then ok (raises unable, l) else r

    unfoldable pub init : Linkage W → Called py W
    init l = do x ← Linkage.init lib l; ok (unless_negative (λ l. unable) (λ l. nothing) x)

    unfoldable pub destroy : Linkage W → Called py W
    destroy l = while_running l (do x ← Linkage.destroy lib l; ok (nothing, x.1))

    unfoldable pub isrunning : Linkage W → Called py W
    isrunning l = ok (truth (if is_false (Linkage.isrunning lib l) then false else true), l)

    -- publish(), once the items have been added, or one was neither a number nor a string.
    unfoldable pub publish_added : Name → Bool × Linkage W → Called py W
    publish_added topic (false, l) = ok (raises bad_sequence, l)
    publish_added topic (true, l) = do
      x ← Linkage.publish lib topic l
      ok (unless_negative saved_error (λ l. nothing) x)

    unfoldable pub publish_sequence : Name → ℤ → Option (List (Item py)) → Linkage W → Called py W
    publish_sequence topic size none l = ok (refused, l)
    publish_sequence topic size (some items) l = do
      x ← add_loop (pos_part size) items (newtopic l)
      publish_added topic x

    -- The arguments are `none` where PyArg_ParseTuple() refuses them.
    unfoldable pub publish : Option (Name × Sequence py) → Linkage W → Called py W
    publish none l = while_running l (ok (refused, l))
    publish (some (topic, seq)) l = while_running l (publish_sequence topic seq.size seq.fast l)

    unfoldable pub subscribe : Option Name → Linkage W → Called py W
    subscribe none l = while_running l (ok (refused, l))
    subscribe (some topic) l =
        while_running l
          (do x ← Linkage.subscribe lib topic l; ok (unless_negative saved_error (λ l. nothing) x))

    unfoldable pub get : Option (Name × Option ℕ) → Linkage W → Called py W
    get none l = while_running l (ok (refused, l))
    get (some (topic, wait)) l = while_running l (do
      x ← Linkage.get lib topic (optional_wait wait) l
      ok (unless_negative saved_error fetched x))

    unfoldable pub waitforany : Linkage W → Called py W
    waitforany l =
        while_running l
          (do x ← Linkage.waitforany lib l; ok (unless_negative saved_error (λ l. nothing) x))
