-- ===== src/Server/Directory.antt =====
-- The topics topic lists the names of the stored topics.
use diamond_apparatus.Base.{
  ◌≡◌, refl, ap, sym, ◌∙◌, true, false, some, List, [], ◌∷◌, ◌++◌, map, arith, All, append_assoc,
  append-nil, Bool-cases, inl, inr,
}
use diamond_apparatus.Base.Order.{nat_ord, bytes_ord, compare_bytes}
use diamond_apparatus.Base.Bytes.{IsText, until_nul-eq}
use diamond_apparatus.Map
use diamond_apparatus.Map.{Map, keys, same, branch}
use diamond_apparatus.Map.Laws.{
  find-insert, find-enter, has-insert, has-enter, find-insert_self, same_refl,
}
use diamond_apparatus.Map.Sorted.{IsSorted, insert-IsSorted, enter-IsSorted, keys-insert_there}
use diamond_apparatus.Topic.{str, of_string, copy, Topic, new_topic, add, clear}
use diamond_apparatus.Server.{Name, topics_name, stats_name, add_names, find_or_create_topic}

topics_name-IsText : IsText topics_name
topics_name-IsText = omega arith

stats_name-IsText : IsText stats_name
stats_name-IsText = omega arith

-- What the stored topics are like: in the order of their names, each name a C string; and the topics
-- topic, where it is there, lists just these names, in their order.
pub record IsDirectory (topics : Map Name Topic) : Type 0 where
  pub sorted : IsSorted topics
  pub named : All IsText (keys topics)
  pub listed : (t : Topic) → Map.find topics_name topics ≡ some t → t.d ≡ map str (keys topics)
  -- The stats topic is entered before any rebuilding of the list.
  pub counted : Map.has topics_name topics ≡ true → Map.has stats_name topics ≡ true

pub insert-named :
    (n : Name) (t : Topic) (topics : Map Name Topic)
    → IsText n
    → All IsText (keys topics)
    → All IsText (keys (Map.insert n t topics))
unfolding Map.insert
insert-named n t [] h a = (h, tt)
insert-named n t ((j, u) ∷ topics) h a = ground (arith, insert-named n t topics h a.1)

add_names-d : (ns : List Name) (t : Topic) → All IsText ns → (add_names ns t).d ≡ t.d ++ map str ns
unfolding add_names add of_string copy
add_names-d [] t h = sym (append-nil t.d)
add_names-d (n ∷ ns) t h =
    add_names-d ns (add (of_string n) t) h.1
    ∙ rw (until_nul-eq n h.0, until_nul-eq n h.0) (append_assoc t.d (str n ∷ []) (map str ns))

topics-ne-stats : same topics_name stats_name ≡ false
unfolding compare_bytes
topics-ne-stats = refl

-- The state in which the list is rebuilt: all but the list is in order.
pub record IsReady (topics : Map Name Topic) : Type 0 where
  pub sorted : IsSorted topics
  pub named : All IsText (keys topics)
  pub counted : Map.has stats_name topics ≡ true

abbrev pub rebuilt : Map Name Topic → Map Name Topic
rebuilt topics =
    let entered = Map.enter new_topic topics_name topics in
    Map.insert topics_name
      (add_names (keys entered) (clear (find_or_create_topic topics_name topics))) entered

has-enter_self :
    (topics : Map Name Topic) → Map.has topics_name (Map.enter new_topic topics_name topics) ≡ true
unfolding Map.has
has-enter_self topics =
    ground (arith, find-enter new_topic topics_name topics_name topics, same_refl topics_name)

enter-named :
    (topics : Map Name Topic)
    → All IsText (keys topics)
    → All IsText (keys (Map.enter new_topic topics_name topics))
unfolding Map.enter
enter-named topics h =
    ground (arith, insert-named topics_name new_topic topics topics_name-IsText h)

pub rebuilt-IsDirectory : (topics : Map Name Topic) → IsReady topics → IsDirectory (rebuilt topics)
rebuilt-IsDirectory topics v = record {
  sorted = insert-IsSorted topics_name list entered sorted;
  named = insert-named topics_name list entered topics_name-IsText (enter-named topics v.named);
  listed = λ t found.
      let here : list ≡ t = cc (find-insert_self topics_name list entered) in
      ap (λ (u : Topic). u.d) (sym here)
      ∙ add_names-d (keys entered) (clear (find_or_create_topic topics_name topics))
          (enter-named topics v.named)
      ∙ (unfold clear in
          ap (map str)
            (sym (keys-insert_there topics_name list entered sorted (has-enter_self topics))));
  counted = λ h. ground (
    arith,
    has-insert stats_name topics_name list entered,
    has-enter new_topic stats_name topics_name topics,
    v.counted,
  );
}
  where
    entered : Map Name Topic
    entered = Map.enter new_topic topics_name topics

    list : Topic
    list = add_names (keys entered) (clear (find_or_create_topic topics_name topics))

    sorted : IsSorted entered
    sorted = enter-IsSorted new_topic topics_name topics v.sorted

-- A write to a topic other than the list, which is there, leaves the list as it was.
pub insert_there-IsDirectory :
    (n : Name) (t : Topic) (topics : Map Name Topic)
    → same topics_name n ≡ false
    → Map.has n topics ≡ true
    → IsDirectory topics
    → IsDirectory (Map.insert n t topics)
insert_there-IsDirectory n t topics other there v = record {
  sorted = insert-IsSorted n t topics v.sorted;
  named = rw same_keys v.named;
  listed = λ u found.
      rw same_keys (v.listed u (ground (arith, find-insert topics_name n t topics, other, found)));
  counted = λ h. ground (
    arith,
    has-insert stats_name n t topics,
    has-insert topics_name n t topics,
    other,
    v.counted,
    h,
  );
}
  where
    same_keys : keys (Map.insert n t topics) ≡ keys topics
    same_keys = keys-insert_there n t topics v.sorted there

-- The stats topic may be entered for the first time; then there is no list yet.
pub insert-stats-IsDirectory :
    (t : Topic) (topics : Map Name Topic)
    → IsDirectory topics
    → IsDirectory (Map.insert stats_name t topics)
      × (Map.has stats_name (Map.insert stats_name t topics) ≡ true)
insert-stats-IsDirectory t topics v = (
  elim (Bool-cases (Map.has stats_name topics)) [
    | inl there ↦ insert_there-IsDirectory stats_name t topics topics-ne-stats there v
    | inr missing ↦ record {
      sorted = insert-IsSorted stats_name t topics v.sorted;
      named = insert-named stats_name t topics stats_name-IsText v.named;
      listed = λ u found.
          let kept : Map.find topics_name topics ≡ some u =
            ground (arith, find-insert topics_name stats_name t topics, topics-ne-stats, found) in
          let list_there : Map.has topics_name topics ≡ true = unfold Map.has in rw kept in
          absurd (cc (v.counted list_there, missing));
      counted = λ h. present;
    }
  ],
  present,
)
  where
    present : Map.has stats_name (Map.insert stats_name t topics) ≡ true
    present = ground (arith, has-insert stats_name stats_name t topics, same_refl stats_name)
