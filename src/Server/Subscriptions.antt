-- ===== src/Server/Subscriptions.antt =====
-- Who is subscribed to what: the two maps of MyServer tell the same.
use diamond_apparatus.Base.{ℕ, ◌≡◌, false, ◌&&◌, List, [], ◌∷◌, arith, if◌then◌else◌}
use diamond_apparatus.Base.Order.{nat_ord, bytes_ord}
use diamond_apparatus.Map
use diamond_apparatus.Map.{Map, Set, same, keys}
use diamond_apparatus.Map.Laws.{same-eq}
use diamond_apparatus.Map.Multi.{
  member, listed, listed-keys, member-erase, member-join, member-leave,
}
use diamond_apparatus.Server.{Name, Server, remove_from, unsubscribe, forget_topic, deletetopic}

-- A descriptor is in the set of a name exactly if the name is in the set of the descriptor.
abbrev pub IsLinked : Map Name (Set ℕ) → Map ℕ (Set Name) → Type 0
IsLinked subscribers subtopics =
    (n : Name) (fd : ℕ) → member n fd subscribers ≡ member fd n subtopics

member-remove_from :
    (n : Name) (g fd : ℕ) (ns : List Name) (subs : Map Name (Set ℕ))
    → member n g (remove_from fd ns subs)
      ≡ (if same g fd && listed n ns then false else member n g subs)
unfolding remove_from listed
member-remove_from n g fd [] subs = ground arith
member-remove_from n g fd (j ∷ ns) subs = ground (
  arith,
  member-remove_from n g fd ns (Map.insert j (Map.erase fd (Map.at [] j subs)) subs),
  member-leave n j g fd subs,
)

member-forget_topic :
    (n j : Name) (g : ℕ) (fds : List ℕ) (subs : Map ℕ (Set Name))
    → member g n (forget_topic j fds subs)
      ≡ (if same n j && listed g fds then false else member g n subs)
unfolding forget_topic listed
member-forget_topic n j g [] subs = ground arith
member-forget_topic n j g (fd ∷ fds) subs = ground (
  arith,
  member-forget_topic n j g fds (Map.insert fd (Map.erase j (Map.at [] fd subs)) subs),
  member-leave g fd n j subs,
)

-- If the two maps tell the same, then after unsubscribe() neither holds a subscription of the
-- descriptor, and every other subscription is as it was in both.
pub member-unsubscribe :
    (n : Name) (g fd : ℕ) (s : Server)
    → IsLinked s.subscribers s.subtopics
    → (member n g (unsubscribe fd s).subscribers
        ≡ (if same g fd then false else member n g s.subscribers))
      × (member g n (unsubscribe fd s).subtopics
          ≡ (if same g fd then false else member g n s.subtopics))
unfolding unsubscribe
member-unsubscribe n g fd s linked =
    let mine = Map.at [] fd s.subtopics in
    (
      ground (
        arith,
        member-remove_from n g fd (keys mine) s.subscribers,
        listed-member,
        linked n fd,
        same-eq g fd,
      ),
      member-erase g fd n s.subtopics,
    )
  where
    listed-member : listed n (keys (Map.at [] fd s.subtopics)) ≡ member fd n s.subtopics
    listed-member = unfold member in listed-keys n (Map.at [] fd s.subtopics)

pub unsubscribe-IsLinked :
    (fd : ℕ) (s : Server)
    → IsLinked s.subscribers s.subtopics
    → IsLinked (unsubscribe fd s).subscribers (unsubscribe fd s).subtopics
unsubscribe-IsLinked fd s linked n g =
    let (a, b) = member-unsubscribe n g fd s linked in ground (arith, linked n g)

-- If the two maps tell the same, deletetopic() forgets the name on both sides, and nothing else.
pub member-deletetopic :
    (n j : Name) (g : ℕ) (s : Server)
    → IsLinked s.subscribers s.subtopics
    → (member n g (deletetopic j s).subscribers
        ≡ (if same n j then false else member n g s.subscribers))
      × (member g n (deletetopic j s).subtopics
          ≡ (if same n j then false else member g n s.subtopics))
unfolding deletetopic
member-deletetopic n j g s linked = (
  member-erase n j g s.subscribers,
  ground (
    arith,
    member-forget_topic n j g (keys (Map.at [] j s.subscribers)) s.subtopics,
    listed-member,
    linked j g,
    same-eq n j,
  ),
)
  where
    listed-member : listed g (keys (Map.at [] j s.subscribers)) ≡ member j g s.subscribers
    listed-member = unfold member in listed-keys g (Map.at [] j s.subscribers)

-- The two insertions of subscribe().
pub join-IsLinked :
    (fd : ℕ) (n : Name) (subscribers : Map Name (Set ℕ)) (subtopics : Map ℕ (Set Name))
    → IsLinked subscribers subtopics
    → IsLinked
        (Map.insert n (Map.insert fd tt (Map.at [] n subscribers)) subscribers)
        (Map.insert fd (Map.insert n tt (Map.at [] fd subtopics)) subtopics)
join-IsLinked fd n subs tops linked m g =
    ground (arith, member-join m n g fd subs, member-join g fd m n tops, linked m g)
