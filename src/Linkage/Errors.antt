-- ===== src/Linkage/Errors.antt =====
-- The wrappers for C: when they report an error, and where they have nothing to return.
use diamond_apparatus.Base.{◌≡◌, ◌≢◌, ◌↔◌, refl, none}
use diamond_apparatus.Base.Int.{ℤ}
use diamond_apparatus.Base.Result.{Result, ok, throws, fault, Ensures}
use diamond_apparatus.Topic.{Topic}
use diamond_apparatus.Client.Library.{Library, Attempt}
use diamond_apparatus.Linkage.{
  Linkage, minus_one, error, returning, nothing_after, killserver, clearserver, waitforany,
}

module _ {ℓ} {W : Type ℓ} where
  -- What a wrapper returns is -1 exactly if there is an error to be read.
  abbrev pub IsReported : Result (ℤ × Linkage W) → Type 0
  IsReported r = Ensures (λ x. (x.0 ≡ minus_one) ↔ (error x.1 ≢ none)) r

  module _ (lib : Library W) where
    no_value :
        (a : Attempt (Unit {0}) W) (l : Linkage W)
        → a.0 ≡ ok tt
        → returning l (nothing_after a) ≡ fault
    unfolding returning
    no_value (ok u, w) l h = refl
    no_value (throws e, w) l h = absurd (cc h)
    no_value (fault, w) l h = refl

    -- diamondapparatus_killserver(), diamondapparatus_clearserver() and
    -- diamondapparatus_waitforany() run off their ends whenever the function of the library that
    -- they call returns.
    pub success_undefined :
        (l : Linkage W)
        → ((lib.kill_server l.world).0 ≡ ok tt → killserver lib l ≡ fault)
          × ((lib.clear_server l.world).0 ≡ ok tt → clearserver lib l ≡ fault)
          × ((lib.wait_for_any l.world).0 ≡ ok tt → waitforany lib l ≡ fault)
    unfolding killserver clearserver waitforany
    success_undefined l = (
      no_value (lib.kill_server l.world) l,
      no_value (lib.clear_server l.world) l,
      no_value (lib.wait_for_any l.world) l,
    )
