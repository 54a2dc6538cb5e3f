-- ===== src/Python/Exchange.antt =====
-- Two programs in Python: one publishes a sequence, and the other gets it as a tuple.
use diamond_apparatus.Base.{
  ℕ, zero, suc, ◌+◌, ◌^◌, ◌<◌, ◌≡◌, refl, ap, sym, ◌∙◌, true, Option, none, some, List, [], ◌∷◌,
  ◌++◌, arith, length, append-nil, get_elem?,
}
use diamond_apparatus.Base.Int.{ℤ, pos}
use diamond_apparatus.Base.Order.{nat_ord, bytes_ord}
use diamond_apparatus.Base.Result.{Result, ok}
use diamond_apparatus.Map
use diamond_apparatus.Topic.{
  Datum, flt, str, Topic, tag, as_float, as_string, topic_nodata, topic_changed, get_waitany,
}
use diamond_apparatus.Topic.Message.{Allocator}
use diamond_apparatus.Topic.Message.Encode.{encode}
use diamond_apparatus.Tcp.Send.Frames.{sent_frame}
use diamond_apparatus.Messages.{cs_publish, sc_notify}
use diamond_apparatus.Server.Delivery.{IsPublication}
use diamond_apparatus.Client.{Client, Name}
use diamond_apparatus.Client.Get.{Phase}
use diamond_apparatus.Client.Library.{Library, Attempt, Dial, client_library}
use diamond_apparatus.Linkage
use diamond_apparatus.Linkage.{
  Linkage, cleared, newtopic, addfloat, addstring, fetchtype, fetchfloat, fetchstring, fetchsize,
  isfetchvalid,
}
use diamond_apparatus.Linkage.Exchange.{add_items, Fetches, IsWoken, exchanged}
use diamond_apparatus.Python.{
  Interpreter, Item, number, unicode, neither, Cell, float, string, nothing, tuple, add_loop,
  cell_at, fetch_loop, fetched, publish_added, publish_sequence, publish, get,
}

-- The items of a topic that a sequence stands for: every string of it can be encoded, and what comes
-- of that decoded again.
pub data Matches (py : Interpreter) : List (Item py) → List Datum → Type 0 where
  no_more : Matches py [] []
  floats :
      (f : ℕ) {items : List (Item py)} {d : List Datum}
      → Matches py items d
      → Matches py (number f ∷ items) (flt f ∷ d)
  strings :
      (s : py.String) (b : List ℕ) {items : List (Item py)} {d : List Datum}
      → py.encoded s ≡ some b
      → py.decoded b ≡ some s
      → Matches py items d
      → Matches py (unicode s ∷ items) (str b ∷ d)

module _ (py : Interpreter) where
  -- The tuple of a sequence.
  abbrev pub cells_of : List (Item py) → List (Option (Cell py))
  cells_of [] = []
  cells_of (number f ∷ items) = some (float f) ∷ cells_of items
  cells_of (unicode s ∷ items) = some (string s) ∷ cells_of items
  cells_of (neither ∷ items) = none ∷ cells_of items

  -- What the fetching functions read from an index on.
  abbrev ReadsFrom {ℓ} : {W : Type ℓ} → ℕ → List Datum → Linkage W → Type 0
  ReadsFrom i d l =
      (j k : ℕ) (q : Datum)
      → k ≡ i + j
      → get_elem? d j ≡ some q
      → (fetchtype (pos k) l ≡ tag q)
        × (fetchfloat (pos k) l ≡ as_float q)
        × (fetchstring (pos k) l ≡ as_string q)

module _ {ℓ} {W : Type ℓ} (py : Interpreter) where
  pub add_loop-eq :
      {items : List (Item py)} {d : List Datum}
      → Matches py items d
      → (rest : List (Item py)) (n k : ℕ) (l : Linkage W) → k ≡ length items + n
      → add_loop py k (items ++ rest) l ≡ add_loop py n rest (add_items d l)
  unfolding add_loop
  add_loop-eq no_more rest n k l e = ap (λ k. add_loop py k rest l) (omega (arith, e))
  add_loop-eq (floats f m) rest n zero l e = absurd (omega (arith, e))
  add_loop-eq (strings s b bytes back m) rest n zero l e = absurd (omega (arith, e))
  add_loop-eq (floats f m) rest n (suc k) l e =
      add_loop-eq m rest n k (addfloat f l) (omega (arith, e))
  add_loop-eq (strings s b bytes back m) rest n (suc k) l e =
      rw bytes (add_loop-eq m rest n k (addstring b l) (omega (arith, e)))

  fetch_loop-eq :
      {items : List (Item py)} {d : List Datum}
      → Matches py items d
      → (i : ℕ) (l : Linkage W) → ReadsFrom py i d l
      → fetch_loop py (length d) i l ≡ some (cells_of py items)
  unfolding fetch_loop cell_at tag as_float as_string
  fetch_loop-eq no_more i l reads = refl
  fetch_loop-eq (floats f m) i l reads =
      let (type, value, text) = reads zero i (flt f) (omega arith) refl in
      let rest = fetch_loop-eq m (i + 1) l λ j k q e h. reads (suc j) k q (omega (arith, e)) h in
      let cell : cell_at py i l ≡ some (some (float f)) = rw (type, value) refl in
      rw (cell, rest) refl
  fetch_loop-eq (strings s b bytes back m) i l reads =
      let (type, value, text) = reads zero i (str b) (omega arith) refl in
      let rest = fetch_loop-eq m (i + 1) l λ j k q e h. reads (suc j) k q (omega (arith, e)) h in
      let cell : cell_at py i l ≡ some (some (string s)) = rw (type, text, back) refl in
      rw (cell, rest) refl

  fetched-eq :
      {items : List (Item py)} {d : List Datum} (l : Linkage W)
      → Matches py items d
      → Fetches d l
      → fetched py l ≡ tuple (cells_of py items)
  unfolding fetched
  fetched-eq {items} {d} l m (valid, sized, reads) =
      let all = fetch_loop-eq m 0 l λ j k q e h.
        let (type, value, text) = reads k q (ap (get_elem? d) (omega (arith, e)) ∙ h) in
        (type, value, text) in
      rw (valid, sized, all) refl

module _ (py : Interpreter) (a : Allocator) (dial : Dial) (thrown rest : Client → Client)
    (serve : Result (Unit {0})) (wait : Phase → ℕ → Name → Client → Attempt Topic Client) where
  abbrev wrapped : Library Client
  wrapped = client_library a dial thrown rest serve wait

  runs : (l : Linkage Client) → l.world.running ≡ true → Linkage.isrunning wrapped l ≡ pos 1
  unfolding Linkage.isrunning client_library
  runs l running = rw running refl

  -- What publish() comes to, for a sequence of numbers and strings, once the wrapper has sent it.
  publish-sent :
      {items : List (Item py)} {d : List Datum} (n : Name) (l m : Linkage Client)
      → Matches py items d
      → l.world.running ≡ true
      → Linkage.publish wrapped n (add_items d (newtopic l)) ≡ ok (pos 0, m)
      → publish py wrapped (some (n, record { size = pos (length items); fast = some items })) l
        ≡ ok (nothing, m)
  unfolding publish publish_sequence publish_added add_loop
  publish-sent {items} {d} n l m matches running sent =
      let added : add_loop py (length items) items (newtopic l)
          ≡ ok (true, add_items d (newtopic l)) =
        ap (λ xs. add_loop py (length items) xs (newtopic l)) (sym (append-nil items))
        ∙ add_loop-eq py matches [] 0 (length items) (newtopic l) (omega arith) in
      rw (runs l running, added, sent) refl

  get-fetched :
      {items : List (Item py)} {d : List Datum} (n : Name) (l m : Linkage Client)
      → Matches py items d
      → l.world.running ≡ true
      → Linkage.get wrapped n get_waitany l ≡ ok (pos topic_changed, m)
      → Fetches d m
      → get py wrapped (some (n, none)) l ≡ ok (tuple (cells_of py items), m)
  unfolding get
  get-fetched n l m matches running got fetches =
      rw (runs l running, got, fetched-eq py m matches fetches) refl

  -- A program in Python publishes a sequence of numbers and strings, while it is connected and
  -- every write is complete: the publication of just these items is sent, once, and publish()
  -- returns None. Another, which is subscribed to the name and has no data yet, calls get() with
  -- the name alone, and the notification of these items is what ends its wait: it returns the tuple
  -- of the same numbers and strings, in their order. The name is a C string of at most 128 bytes,
  -- the numbers are floats of 32 bits, the strings are C strings in UTF-8 that the interpreter
  -- encodes and decodes again, and the message has fewer than 2^31 bytes.
  pub publish-get :
      (items : List (Item py)) (n : Name) (d : List Datum) (sender reader : Linkage Client)
      (now : ℤ) (cell : ℕ) (t : Topic)
      → Matches py items d
      → IsPublication n d
      → length (encode cs_publish n d) < 2 ^ 31
      → sender.world.running ≡ true
      → sender.world.net.script ≡ []
      → IsWoken wait now (encode sc_notify n d)
      → reader.world.running ≡ true
      → Map.find n reader.world.topics ≡ some cell
      → Map.find cell reader.world.heap ≡ some t
      → t.state ≡ topic_nodata
      → (publish py wrapped
            (some (n, record { size = pos (length items); fast = some items }))
            sender
          ≡ ok (
            nothing,
            cleared
                (record sender.world {
                  net = sent_frame sender.world.fd (encode cs_publish n d) sender.world.net;
                })
                (add_items d (newtopic sender)),
          ))
        × ((m : Linkage Client) × (get py wrapped (some (n, none)) reader
              ≡ ok (tuple (cells_of py items), m)))
  publish-get items n d sender reader now cell t matches v small running quiet woken up known found
        empty =
      let (sent, (m, got, fetches)) =
        exchanged a dial thrown rest serve wait n d sender reader now cell t v small running quiet
          woken up known found empty in
      (
        publish-sent n sender _ matches running sent,
        (m, get-fetched n reader m matches up got fetches),
      )
