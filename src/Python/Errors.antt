-- ===== src/Python/Errors.antt =====
-- What the binding does with a sequence that cannot be published.
use diamond_apparatus.Base.{
  suc, ◌≡◌, refl, true, false, some, List, [], ◌∷◌, ◌++◌, arith, length, length-append,
}
use diamond_apparatus.Base.Int.{pos}
use diamond_apparatus.Base.Result.{ok}
use diamond_apparatus.Topic.{Datum, flt, str, raw}
use diamond_apparatus.Client.{Name}
use diamond_apparatus.Client.Library.{Library}
use diamond_apparatus.Linkage
use diamond_apparatus.Linkage.{Linkage, newtopic, addfloat, addstring}
use diamond_apparatus.Linkage.Exchange.{add_items}
use diamond_apparatus.Python.{
  Interpreter, Item, neither, raises, bad_sequence, add_loop, publish_added, publish_sequence,
  publish,
}
use diamond_apparatus.Python.Exchange.{Matches, add_loop-eq}

module _ {ℓ} {W : Type ℓ} where
  add_items-world : (d : List Datum) (l : Linkage W) → (add_items d l).world ≡ l.world
  unfolding addfloat addstring
  add_items-world [] l = refl
  add_items-world (flt f ∷ d) l = add_items-world d (addfloat f l)
  add_items-world (str s ∷ d) l = add_items-world d (addstring s l)
  add_items-world (raw n ∷ d) l = add_items-world d l

module _ {ℓ} {W : Type ℓ} (py : Interpreter) (lib : Library W) where
  add_loop-neither :
      {items : List (Item py)} {d : List Datum} (after : List (Item py)) (l : Linkage W)
      → Matches py items d
      → add_loop py (length (items ++ neither ∷ after)) (items ++ neither ∷ after) l
        ≡ ok (false, add_items d l)
  unfolding add_loop
  add_loop-neither {items} {d} after l m =
      add_loop-eq py m (neither ∷ after) (suc (length after)) (length (items ++ neither ∷ after)) l
        (omega (arith, length-append items (neither ∷ after)))

  -- publish() in Python, while the client runs, of a sequence whose first item that is neither a
  -- number nor a string stands behind others that are, whatever follows: an exception is raised,
  -- nothing is asked of the library, so its state is as it was, and only the topic that is being
  -- built holds the items before.
  pub publish-neither :
      (before after : List (Item py)) (d : List Datum) (n : Name) (l : Linkage W)
      → Matches py before d
      → lib.is_running l.world ≡ true
      → let items = before ++ neither ∷ after in
        (publish py lib (some (n, record { size = pos (length items); fast = some items })) l
          ≡ ok (raises bad_sequence, add_items d (newtopic l)))
        × ((add_items d (newtopic l)).world ≡ l.world)
  unfolding publish publish_sequence publish_added Linkage.isrunning newtopic
  publish-neither before after d n l m running =
      (rw (running, add_loop-neither after (newtopic l) m) refl, add_items-world d (newtopic l))
