-- ===== src/Client/Users.antt =====
-- client.cpp: the count of users that init() and destroy() keep.
use diamond_apparatus.Base.{
  ℕ, zero, suc, ◌+◌, ◌-◌, ◌≤◌, ◌≡◌, refl, ◌∙◌, ap, none, if_false, ◌<◌, true, false, ◌&&◌, List, [],
  ◌∷◌, ◌==◌, arith, length,
}
use diamond_apparatus.Base.Result.{Result, ok, ◌>>=◌}
use diamond_apparatus.Client.{Client}
use diamond_apparatus.Client.Interface.{destroy}
use diamond_apparatus.Client.Library.{Dial, connect_client, init}

-- A call of init() for each user, and calls of destroy().
unfoldable pub inits : List Dial → Client → Result Client
inits [] c = ok c
inits (dial ∷ dials) c = init dial c >>= inits dials

unfoldable pub destroys : ℕ → Client → Client
destroys zero c = c
destroys (suc k) c = destroys k (destroy c).1

abbrev users : ℕ → Client → Client
users n c = record c { init_count = n }

init_more :
    (dial : Dial) (c : Client) (n : ℕ) → init dial (users (suc n) c) ≡ ok (users (suc (suc n)) c)
unfolding init
init_more dial c n = if_false _ _ (used n) ∙ ap (λ k. ok (users k c)) (one_more n)
  where
    used : (n : ℕ) → (suc n == 0) ≡ false
    used n = ground arith

    one_more : (n : ℕ) → suc n + 1 ≡ suc (suc n)
    one_more n = omega arith

inits_more :
    (dials : List Dial) (c : Client) (n : ℕ)
    → inits dials (users (suc n) c) ≡ ok (users (suc n + length dials) c)
unfolding inits
inits_more [] c n = ap (λ k. ok (users k c)) (omega arith)
inits_more (dial ∷ dials) c n =
    rw (init_more dial c n) (inits_more dials c (suc n) ∙ ap (λ k. ok (users k c)) (omega arith))

destroy_more :
    (c : Client)
    → c.running ≡ false
    → c.synced ≡ false
    → ((destroy c).1.init_count ≡ c.init_count - 1)
      × ((destroy c).1.running ≡ false)
      × ((destroy c).1.synced ≡ false)
unfolding destroy
destroy_more c off gone = ground (arith, off, gone)

-- destroy() where another user remains.
destroy_shared :
    (c : Client)
    → 1 < c.init_count
    → ((destroy c).1.init_count ≡ c.init_count - 1)
      × ((destroy c).1.running ≡ false)
      × ((destroy c).1.synced ≡ false)
unfolding destroy
destroy_shared c others = ground (arith, others)

-- A client that does not run, and whose mutex has been destroyed, stays so.
destroys_more :
    (k : ℕ) (c : Client)
    → c.running ≡ false
    → c.synced ≡ false
    → ((destroys k c).init_count ≡ c.init_count - k)
      × ((destroys k c).running ≡ false)
      × ((destroys k c).synced ≡ false)
unfolding destroys
destroys_more zero c off gone = (omega arith, off, gone)
destroys_more (suc k) c off gone =
    let (one, off', gone') = destroy_more c off gone in
    let (count, off'', gone'') = destroys_more k (destroy c).1 off' gone' in
    (count ∙ omega (arith, one), off'', gone'')

-- The client behind the init() of its first user.
abbrev first : ℕ → Client → Client
first fd c = record c { fd = fd; waittopic = none; running = true; init_count = 1 }

destroys-first :
    (fd : ℕ) (c : Client) (n k : ℕ)
    → k ≤ n
    → let d = destroys (suc k) (users (1 + n) (first fd c)) in
      (d.init_count ≡ n - k) × (d.running ≡ (n == 0)) × (d.synced ≡ (n == 0 && c.synced))
unfolding destroys destroy
destroys-first fd c zero zero few = (refl, refl, refl)
destroys-first fd c zero (suc k) few = absurd (omega (arith, few))
destroys-first fd c (suc n) k few =
    let d = users (1 + suc n) (first fd c) in
    let (one, off, gone) = destroy_shared d (omega arith) in
    let (count, off', gone') = destroys_more k (destroy d).1 off gone in
    (count ∙ omega (arith, one), off' ∙ ground arith, gone' ∙ ground arith)

-- From a client without users: init() for a first user, whose connection succeeds, and for any number
-- of others, returns, and the client then runs. Any number of calls of destroy(), at least one and at
-- most one for each user, brings the count down by that number; but only where there was a single
-- user do the mutex and the condition stay, and then the client goes on to run; where there were
-- others, it has been told to end, and they have been destroyed, from the first call on.
pub inits-destroys :
    (dial : Dial) (fd : ℕ) (others : List Dial) (c : Client) (k : ℕ)
    → connect_client dial ≡ ok fd
    → c.init_count ≡ 0
    → k ≤ length others
    → (d : Client) × (inits (dial ∷ others) c ≡ ok d)
      × (d.running ≡ true)
      × ((destroys (suc k) d).init_count ≡ length others - k)
      × ((destroys (suc k) d).running ≡ (length others == 0))
      × ((destroys (suc k) d).synced ≡ (length others == 0 && c.synced))
unfolding inits init
inits-destroys dial fd others c k dialled none_yet few =
    let (count, on, there) = destroys-first fd c (length others) k few in
    (
      users (1 + length others) (first fd c),
      rw (none_yet, dialled) (inits_more others (first fd c) 0),
      refl,
      count,
      on,
      there,
    )
