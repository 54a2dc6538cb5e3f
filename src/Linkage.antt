-- ===== src/Linkage.antt =====
-- clinkage.cpp: the wrappers for C. Its statics and the state of the library are one record.
pub mod Errors
pub mod Exchange
pub mod Tests
use diamond_apparatus.Base.{ℕ, Bool, true, false, Option, none, some, List, if◌then◌else◌}
use diamond_apparatus.Base.Int.{ℤ, pos, negsuc}
use diamond_apparatus.Base.Result.{Result, ok, throws, fault, Exception}
use diamond_apparatus.Topic.{
  Topic, new_topic, flt, copy_topic, add, of_string, get_item, as_float, as_string, tag, size,
  is_valid,
}
use diamond_apparatus.Client.{Name}
use diamond_apparatus.Client.Library.{Library, Attempt}

-- `exception` is `none` until one has been caught.
pub record Linkage {ℓ} (W : Type ℓ) : Type ℓ where
  pub world : W
  pub exception : Option Exception
  pub inerror : Bool
  pub topic_to_publish : Topic
  pub topic_to_access : Topic

abbrev pub minus_one : ℤ
minus_one = negsuc 0

module _ {ℓ} {W : Type ℓ} where
  -- The copy of the last exception, or NULL.
  unfoldable pub error : Linkage W → Option Exception
  error l = if l.inerror then l.exception else none

  -- The handler.
  abbrev pub caught : Exception → W → Linkage W → Linkage W
  caught e w l = record l { world = w; exception = some e; inerror = true }

  abbrev pub cleared : W → Linkage W → Linkage W
  cleared w l = record l { world = w; inerror = false }

  -- A wrapper that returns a number: `inerror` is reset, and the exception caught.
  unfoldable pub returning : Linkage W → Attempt ℤ W → Result (ℤ × Linkage W)
  returning l (ok n, w) = ok (n, cleared w l)
  returning l (throws e, w) = ok (minus_one, caught e w l)
  returning l (fault, w) = fault

  -- `return 0` behind the handler.
  abbrev pub zero_after : Attempt (Unit {0}) W → Attempt ℤ W
  zero_after (ok u, w) = (ok (pos 0), w)
  zero_after (throws e, w) = (throws e, w)
  zero_after (fault, w) = (fault, w)

  -- A wrapper with no `return` behind the handler, whose end is undefined.
  abbrev pub nothing_after : Attempt (Unit {0}) W → Attempt ℤ W
  nothing_after (ok u, w) = (fault, w)
  nothing_after (throws e, w) = (throws e, w)
  nothing_after (fault, w) = (fault, w)

  unfoldable pub get_after : Linkage W → Attempt Topic W → Result (ℤ × Linkage W)
  get_after l (ok t, w) = ok (pos t.state, record (cleared w l) { topic_to_access = copy_topic t })
  get_after l (throws e, w) = ok (minus_one, caught e w l)
  get_after l (fault, w) = fault

  module _ (lib : Library W) where
    unfoldable pub init : Linkage W → Result (ℤ × Linkage W)
    init l = returning l (zero_after (lib.init l.world))

    unfoldable pub server : Linkage W → Result (ℤ × Linkage W)
    server l = returning l (zero_after (lib.server l.world))

    unfoldable pub destroy : Linkage W → Result (ℤ × Linkage W)
    destroy l = let (n, w) = lib.destroy l.world in returning l (ok (pos n), w)

    unfoldable pub subscribe : Name → Linkage W → Result (ℤ × Linkage W)
    subscribe n l = returning l (zero_after (lib.subscribe n l.world))

    unfoldable pub publish : Name → Linkage W → Result (ℤ × Linkage W)
    publish n l = returning l (zero_after (lib.publish n l.topic_to_publish l.world))

    unfoldable pub killserver : Linkage W → Result (ℤ × Linkage W)
    killserver l = returning l (nothing_after (lib.kill_server l.world))

    unfoldable pub clearserver : Linkage W → Result (ℤ × Linkage W)
    clearserver l = returning l (nothing_after (lib.clear_server l.world))

    unfoldable pub waitforany : Linkage W → Result (ℤ × Linkage W)
    waitforany l = returning l (nothing_after (lib.wait_for_any l.world))

    unfoldable pub isrunning : Linkage W → ℤ
    isrunning l = if lib.is_running l.world then pos 1 else pos 0

    unfoldable pub get : Name → ℕ → Linkage W → Result (ℤ × Linkage W)
    get n wait l = get_after l (lib.get n wait l.world)

  unfoldable pub newtopic : Linkage W → Linkage W
  newtopic l = record l { topic_to_publish = copy_topic new_topic }

  unfoldable pub addfloat : ℕ → Linkage W → Linkage W
  addfloat f l = record l { topic_to_publish = add (flt f) l.topic_to_publish }

  unfoldable pub addstring : List ℕ → Linkage W → Linkage W
  addstring s l = record l { topic_to_publish = add (of_string s) l.topic_to_publish }

  unfoldable pub fetchstring : ℤ → Linkage W → List ℕ
  fetchstring n l = as_string (get_item l.topic_to_access n)

  unfoldable pub fetchfloat : ℤ → Linkage W → ℕ
  fetchfloat n l = as_float (get_item l.topic_to_access n)

  unfoldable pub fetchtype : ℤ → Linkage W → ℕ
  fetchtype n l = tag (get_item l.topic_to_access n)

  unfoldable pub fetchsize : Linkage W → ℕ
  fetchsize l = size l.topic_to_access

  unfoldable pub isfetchvalid : Linkage W → Bool
  isfetchvalid l = is_valid l.topic_to_access
