-- ===== src/Linkage/Exchange.antt =====
-- Two programs in C: one builds a topic and publishes it, and the other gets it and reads its items.
use diamond_apparatus.Base.{
  ℕ, zero, suc, ◌^◌, ◌<◌, ◌≡◌, refl, ap, sym, ◌∙◌, true, false, none, some, List, [], ◌∷◌, ◌++◌,
  arith, length, get_elem?, leb, append_assoc, append-nil, All, if_true, subst,
}
use diamond_apparatus.Base.Int.{ℤ, pos}
use diamond_apparatus.Base.Order.{nat_ord, bytes_ord}
use diamond_apparatus.Base.Bytes.{until_nul-eq}
use diamond_apparatus.Base.Result.{Result, ok, ◌>>=◌}
use diamond_apparatus.Map
use diamond_apparatus.Topic.{
  Datum, flt, str, raw, Topic, new_topic, copy, copy_data, copy_topic, of_string, add, tag,
  as_float, as_string, get_item, size, is_valid, topic_nodata, topic_changed, get_waitany,
}
use diamond_apparatus.Topic.Message.{Allocator}
use diamond_apparatus.Topic.Message.Encode.{encode, IsWellFormed}
use diamond_apparatus.Tcp.Send.Frames.{sent_frame}
use diamond_apparatus.Messages.{cs_publish, sc_notify}
use diamond_apparatus.Server.Delivery.{IsPublication}
use diamond_apparatus.Client.{Client, Name, process}
use diamond_apparatus.Client.Interface
use diamond_apparatus.Client.Get.{
  Phase, until_data, Get, done, waiting, get_found, get_cell, check, stalls, wake,
}
use diamond_apparatus.Client.Get
use diamond_apparatus.Client.Library.{Library, Attempt, Dial, client_library}
use diamond_apparatus.Client.Waiting.{copy_data-eq, news, wake_notified}
use diamond_apparatus.Client.Wire.{publish_sent}
use diamond_apparatus.Linkage.{
  Linkage, cleared, returning, get_after, publish, get, newtopic, addfloat, addstring, fetchstring,
  fetchfloat, fetchtype, fetchsize, isfetchvalid,
}

module _ {ℓ} {W : Type ℓ} where
  -- The calls that add some items, one after another.
  abbrev pub add_items : List Datum → Linkage W → Linkage W
  add_items [] l = l
  add_items (flt f ∷ d) l = add_items d (addfloat f l)
  add_items (str s ∷ d) l = add_items d (addstring s l)
  add_items (raw n ∷ d) l = add_items d l

  abbrev with_items : List Datum → Linkage W → Linkage W
  with_items d l = record l { topic_to_publish = record l.topic_to_publish { d = d } }

  add_items-eq :
      (d e : List Datum) (l : Linkage W)
      → All IsWellFormed d
      → add_items d (with_items e l) ≡ with_items (e ++ d) l
  unfolding addfloat addstring add of_string copy
  add_items-eq [] e l h = rw (append-nil e) refl
  add_items-eq (flt f ∷ d) e l h =
      add_items-eq d (e ++ flt f ∷ []) l h.1 ∙ rw (append_assoc e (flt f ∷ []) d) refl
  add_items-eq (str s ∷ d) e l h =
      rw (until_nul-eq s h.0.0, until_nul-eq s h.0.0)
        (add_items-eq d (e ++ str s ∷ []) l h.1 ∙ rw (append_assoc e (str s ∷ []) d) refl)
  add_items-eq (raw n ∷ d) e l h = absurd h.0

  -- What the fetching functions read.
  abbrev pub Fetches : List Datum → Linkage W → Type 0
  Fetches d l =
      (isfetchvalid l ≡ true)
      × (fetchsize l ≡ length d)
      × ((i : ℕ) (q : Datum)
          → get_elem? d i ≡ some q
          → (fetchtype (pos i) l ≡ tag q)
            × (fetchfloat (pos i) l ≡ as_float q)
            × (fetchstring (pos i) l ≡ as_string q))

get_elem-short :
    (d : List Datum) (i : ℕ) (q : Datum) → get_elem? d i ≡ some q → leb (length d) i ≡ false
get_elem-short [] i q h = absurd (let k : none ≡ some q = h in cc)
get_elem-short (x ∷ d) zero q h = ground arith
get_elem-short (x ∷ d) (suc i) q h = let e = get_elem-short d i q h in ground arith

get_item-found : (t : Topic) (i : ℕ) (q : Datum) → get_elem? t.d i ≡ some q → get_item t (pos i) ≡ q
unfolding get_item
get_item-found t i q h = rw (get_elem-short t.d i q h, h) refl

pub get_waits :
    (n : Name) (cell : ℕ) (t : Topic) (c : Client)
    → c.running ≡ true
    → Map.find n c.topics ≡ some cell
    → Map.find cell c.heap ≡ some t
    → t.state ≡ topic_nodata
    → Get.get n get_waitany c ≡ ok (waiting until_data cell n, record c { waittopic = some n })
unfolding Get.get get_found get_cell check stalls
get_waits n cell t c running known found empty = rw (running, known, found, empty) refl

-- A wait comes to what get() does when it is woken behind one packet, if it then returns.
abbrev pub IsWoken : (Phase → ℕ → Name → Client → Attempt Topic Client) → ℤ → List ℕ → Type 0
IsWoken wait now p =
    (phase : Phase) (cell : ℕ) (n : Name) (c d : Client) (t : Topic)
    → (process now p c >>= wake phase cell n) ≡ ok (done t, d)
    → wait phase cell n c ≡ (ok t, d)

module _ (a : Allocator) (dial : Dial) (thrown rest : Client → Client) (serve : Result (Unit {0}))
    (wait : Phase → ℕ → Name → Client → Attempt Topic Client) where
  abbrev pub lib : Library Client
  lib = client_library a dial thrown rest serve wait

  publish-ok :
      (n : Name) (l : Linkage Client) (c : Client)
      → Interface.publish a n l.topic_to_publish l.world ≡ ok c
      → publish lib n l ≡ ok (pos 0, cleared c l)
  unfolding publish returning client_library
  publish-ok n l c e = rw e refl

  get-ok :
      (n : Name) (phase : Phase) (cell flag : ℕ) (l : Linkage Client) (c d : Client) (t : Topic)
      → Get.get n flag l.world ≡ ok (waiting phase cell n, c)
      → wait phase cell n c ≡ (ok t, d)
      → get lib n flag l ≡ ok (pos t.state, record (cleared d l) { topic_to_access = copy_topic t })
  unfolding get get_after client_library
  get-ok n phase cell flag l c d t e f = rw (e, f) refl

  publish_built :
      (n : Name) (d : List Datum) (l : Linkage Client)
      → IsPublication n d
      → length (encode cs_publish n d) < 2 ^ 31
      → l.world.running ≡ true
      → l.world.net.script ≡ []
      → let built = add_items d (newtopic l) in
        publish lib n built
        ≡ ok (
          pos 0,
          cleared
              (record l.world { net = sent_frame l.world.fd (encode cs_publish n d) l.world.net })
              built,
        )
  unfolding Interface.publish newtopic copy_topic copy_data
  publish_built n d l v small running e =
      let c : Client = record l.world {
        net = sent_frame l.world.fd (encode cs_publish n d) l.world.net;
      } in
      subst (λ b. publish lib n b ≡ ok (pos 0, cleared c b))
        (sym (add_items-eq d [] (newtopic l) v.items))
        (publish-ok n (with_items d (newtopic l)) c
          (if_true _ _ running ∙ publish_sent a n (record new_topic { d = d }) l.world v small e))

  get_published :
      (n : Name) (d : List Datum) (now : ℤ) (cell : ℕ) (t : Topic) (l : Linkage Client)
      → IsPublication n d
      → IsWoken wait now (encode sc_notify n d)
      → l.world.running ≡ true
      → Map.find n l.world.topics ≡ some cell
      → Map.find cell l.world.heap ≡ some t
      → t.state ≡ topic_nodata
      → (m : Linkage Client) × (get lib n get_waitany l ≡ ok (pos topic_changed, m)) × Fetches d m
  unfolding copy_topic isfetchvalid is_valid fetchsize size fetchtype fetchfloat fetchstring
  get_published n d now cell t l v woken running known found empty =
      let waits = get_waits n cell t l.world running known found empty in
      let c : Client = record l.world { waittopic = some n } in
      let wakes = wake_notified n d v now until_data cell t c running refl known found in
      let same = copy_data-eq d v.items in
      let item : (i : ℕ) (q : Datum)
          → get_elem? d i ≡ some q
          → get_item (copy_topic (news d now)) (pos i) ≡ q =
        λ i q h. get_item-found (copy_topic (news d now)) i q (ap (λ e. get_elem? e i) same ∙ h) in
      (
        record (cleared _ l) { topic_to_access = copy_topic (news d now) },
        get-ok n until_data cell get_waitany l c _ (news d now) waits
            (woken until_data cell n c _ (news d now) wakes),
        (
          refl,
          ap length same,
          λ i q h. (ap tag (item i q h), ap as_float (item i q h), ap as_string (item i q h)),
        ),
      )

  -- A program in C calls diamondapparatus_newtopic(), the functions that add some items, and
  -- diamondapparatus_publish(), while it is connected and every write is complete: the publication
  -- of just these items is sent, once, and 0 is returned. Another, which is subscribed to the name
  -- and has no data yet, calls diamondapparatus_get() with GET_WAITANY, and the notification of
  -- these items is what ends its wait: it gets TOPIC_CHANGED, the topic is valid, and the fetching
  -- functions read as many items as were added, each with its type and its value, in their order.
  -- The name is a C string of at most 128 bytes, the items are well formed, and the message has
  -- fewer than 2^31 bytes.
  pub exchanged :
      (n : Name) (d : List Datum) (sender reader : Linkage Client) (now : ℤ) (cell : ℕ) (t : Topic)
      → IsPublication n d
      → length (encode cs_publish n d) < 2 ^ 31
      → sender.world.running ≡ true
      → sender.world.net.script ≡ []
      → IsWoken wait now (encode sc_notify n d)
      → reader.world.running ≡ true
      → Map.find n reader.world.topics ≡ some cell
      → Map.find cell reader.world.heap ≡ some t
      → t.state ≡ topic_nodata
      → (publish lib n (add_items d (newtopic sender))
          ≡ ok (
            pos 0,
            cleared
                (record sender.world {
                  net = sent_frame sender.world.fd (encode cs_publish n d) sender.world.net;
                })
                (add_items d (newtopic sender)),
          ))
        × ((m : Linkage Client) × (get lib n get_waitany reader ≡ ok (pos topic_changed, m))
            × Fetches d m)
  exchanged n d sender reader now cell t v small running e woken up known found empty = (
    publish_built n d sender v small running e,
    get_published n d now cell t reader v woken up known found empty,
  )
