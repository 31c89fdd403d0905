-- ===== src/Server/Ifb/Normal.antt =====
-- What is left of the settings of IFB.
use open_broadcast_intercom.Base.{
  ℕ, ◌≡◌, refl, true, not, ◌&&◌, contains, contains-filter, nat_eq, arith,
}
use open_broadcast_intercom.Base.Sorted.{
  nat_ord, sorted_unique, mem-sorted_unique, IsStrict, sorted_unique-IsStrict,
}
use open_broadcast_intercom.Control.{IfbConfig}
use open_broadcast_intercom.Server.Gains.{Gains}
use open_broadcast_intercom.Server.Emergency.Rights.{normalize_duck_gain-bounds}
use open_broadcast_intercom.Server.Ifb.{normalize_ifb_config}

module _ (g : Gains) where
  open g use {F, zero, one, is_finite, le}

  -- The channels of IFB are in two lists without a channel in common: the interrupting ones, in
  -- ascending order and each once, are those that were given; the program has those that were given
  -- and do not interrupt; and the gain is finite and between zero and one.
  pub ifb_exact :
      (ifb : IfbConfig F)
      → let after = normalize_ifb_config g ifb in
        IsStrict nat_ord after.interrupt
        × ((c : ℕ) → contains after.interrupt c ≡ contains ifb.interrupt c)
        × ((c : ℕ)
            → contains after.program c ≡ (contains ifb.program c && not (contains ifb.interrupt c)))
        × (is_finite after.duck_gain ≡ true)
        × (le zero after.duck_gain ≡ true)
        × (le after.duck_gain one ≡ true)
        × (after.enabled ≡ ifb.enabled)
  unfolding normalize_ifb_config
  ifb_exact ifb =
      let gain = normalize_duck_gain-bounds g ifb.duck_gain in
      let interrupt = sorted_unique nat_ord ifb.interrupt in
      (
        sorted_unique-IsStrict nat_ord ifb.interrupt,
        λ c. mem-sorted_unique nat_ord ifb.interrupt c,
        λ c. ground (
          arith,
          contains-filter (λ channel. not (contains interrupt channel))
              (sorted_unique nat_ord ifb.program) c,
          mem-sorted_unique nat_ord ifb.program c,
          mem-sorted_unique nat_ord ifb.interrupt c,
        ),
        gain.0,
        gain.1,
        gain.2,
        refl,
      )
