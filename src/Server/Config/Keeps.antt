-- ===== src/Server/Config/Keeps.antt =====
-- When a configuration keeps what another locks.
use open_broadcast_intercom.Base.{
  ℕ, ◌≡◌, refl, ◌∙◌, sym, ap, ◌⊎◌, inl, inr, Bool, true, false, not, ◌&&◌, ◌||◌, Option, none, some,
  List, arith, ◌==◌, nat_eq, if◌then◌else◌, contains, Result, ok, err, Eq, String,
}
use mathlib.Core.Bool.{true≢false}
use open_broadcast_intercom.Base.Map.{Map}
use open_broadcast_intercom.Base.Sorted.{nat_ord, sort, sorted_unique, mem-sort, mem-sorted_unique}
use open_broadcast_intercom.Wire.Types.{Codec}
use open_broadcast_intercom.Control.{TalkMode, TalkButtonConfig, IfbConfig}
use open_broadcast_intercom.Control.Same.{
  list_beq, list_beq_iff, button_eq, list_eq, codec_eq, profile_eq, talk_mode_eq, bool_eq,
}
use open_broadcast_intercom.Server.Gains.{Gains}
use open_broadcast_intercom.Server.Ifb.{normalize_ifb_config}
use open_broadcast_intercom.Server.Config.Buttons.{normalize_button_configs}
use open_broadcast_intercom.Server.Config.Desired.{DesiredClientConfig, Limits}
use open_broadcast_intercom.Server.Config.Lockout.{
  ConfigRequest, same_channels, same_gains, same_ifb, validate_config_lockout, is_some_and,
}
use open_broadcast_intercom.Server.Config.Handle.{or_else, tidy, requested, prioritized}

-- the same channels
abbrev pub SameSet : List ℕ → List ℕ → Type 0
SameSet xs ys = (id : ℕ) → contains xs id ≡ contains ys id

same_channels-SameSet : (xs ys : List ℕ) → same_channels xs ys ≡ true → SameSet xs ys
unfolding same_channels
same_channels-SameSet xs ys h id =
    sym (mem-sort nat_ord xs id)
    ∙ ap (λ zs. contains zs id) ((list_beq_iff (sort nat_ord xs) (sort nat_ord ys)).0 h)
    ∙ mem-sort nat_ord ys id

-- The second configuration has what the first one locks as the first one has it, and locks the same.
-- Gains and `f32` fields may instead compare as equal to what they were.
pub record Keeps {F : Type 0} (same : F → F → Bool) (b d : DesiredClientConfig F) : Type 0 where
  pub lockout : d.lockout ≡ b.lockout
  pub channels : b.lockout.allow_channels ≡ false → SameSet d.listen b.listen × SameSet d.tx b.tx
  pub volumes :
      b.lockout.allow_volumes ≡ false
      → ((d.vol ≡ b.vol) ⊎ (same_gains same d.vol b.vol ≡ true))
        × ((d.talker_vol ≡ b.talker_vol) ⊎ (same_gains same d.talker_vol b.talker_vol ≡ true))
  pub codec :
      b.lockout.allow_codec ≡ false → (d.codec ≡ b.codec) × (d.opus_profile ≡ b.opus_profile)
  pub talk_mode : b.lockout.allow_talk_mode ≡ false → d.talk_mode ≡ b.talk_mode
  pub priority :
      b.lockout.allow_priority ≡ false
      → (d.priority ≡ b.priority) × SameSet d.priority_channels b.priority_channels
  pub buttons : b.lockout.allow_buttons ≡ false → d.buttons ≡ b.buttons
  pub ifb : b.lockout.allow_ifb ≡ false → (d.ifb ≡ b.ifb) ⊎ (same_ifb same d.ifb b.ifb ≡ true)

unlocked : (allow differs : Bool) → (not allow && differs) ≡ false → allow ≡ false → differs ≡ false
unlocked allow differs h k = ground arith

module _ {E : Type 0} where
  abbrev passed : Result E (Unit {0})
  passed = ok tt

  -- a chain of refusals that is passed has passed each test
  ladder :
      (a b c d e f h k : Bool) (x1 x2 x3 x4 x5 x6 x7 x8 : E)
      → (if a
          then err x1
          else if b
          then err x2
          else if c
          then err x3
          else if d
          then err x4
          else if e
          then err x5
          else if f
          then err x6
          else if h
          then err x7
          else if k
          then err x8
          else ok tt)
        ≡ passed
      → (a ≡ false)
        × (b ≡ false)
        × (c ≡ false)
        × (d ≡ false)
        × (e ≡ false)
        × (f ≡ false)
        × (h ≡ false)
        × (k ≡ false)
  ladder a b c d e f h k x1 x2 x3 x4 x5 x6 x7 x8 p = ground arith

module _ {A : Type 0} ⦃e : Eq A⦄ where
  same_choice : (o : Option A) (a : A) → is_some_and (λ v. not (v == a)) o ≡ false → or_else o a ≡ a
  same_choice none a h = refl
  same_choice (some b) a h = ground (arith, e.beq_iff b a)

both : (a b : Bool) → (not a || not b) ≡ false → (a ≡ true) × (b ≡ true)
both a b h = ground arith

either : (a b : Bool) → (a || b) ≡ false → (a ≡ false) × (b ≡ false)
either a b h = ground arith

clash : {P : Type 0} {a : Bool} → a ≡ true → a ≡ false → P
clash h k = absurd (true≢false (sym h ∙ k))

holds : (a : Bool) → not a ≡ false → a ≡ true
holds a h = ground arith

SameSet-trans : (xs ys zs : List ℕ) → SameSet xs ys → SameSet ys zs → SameSet xs zs
SameSet-trans xs ys zs h k id = h id ∙ k id

sorted_unique-SameSet : (xs : List ℕ) → SameSet (sorted_unique nat_ord xs) xs
sorted_unique-SameSet xs id = mem-sorted_unique nat_ord xs id

module _ (g : Gains) (limits : Limits g.F) where
  open g use {F}

  abbrev pub KeepsIn : DesiredClientConfig F → DesiredClientConfig F → Type 0
  KeepsIn b d = Keeps limits.same b d

  talkers_kept :
      (o : Option (Map F)) (b : Map F)
      → is_some_and (λ v. not (same_gains limits.same v b)) o ≡ false
      → (or_else o b ≡ b) ⊎ (same_gains limits.same (or_else o b) b ≡ true)
  talkers_kept none b h = inl refl
  talkers_kept (some v) b h = inr (holds _ h)

  channels_kept :
      (o : Option (List ℕ)) (b : List ℕ)
      → is_some_and (λ v. not (same_channels v b)) o ≡ false
      → SameSet (elim o [ none ↦ b | some ids ↦ sorted_unique nat_ord ids ]) b
  channels_kept none b h = λ id. refl
  channels_kept (some ids) b h =
      SameSet-trans (sorted_unique nat_ord ids) ids b (sorted_unique-SameSet ids)
        (same_channels-SameSet ids b (holds _ h))

  buttons_kept :
      (o : Option (List TalkButtonConfig)) (b : List TalkButtonConfig)
      → is_some_and (λ v. not (list_beq (normalize_button_configs v) b)) o ≡ false
      → elim o [ none ↦ b | some v ↦ normalize_button_configs v ] ≡ b
  buttons_kept none b h = refl
  buttons_kept (some v) b h = (list_beq_iff (normalize_button_configs v) b).0 (holds _ h)

  ifb_kept :
      (o : Option (IfbConfig F)) (b : IfbConfig F)
      → is_some_and (λ v. not (same_ifb limits.same (normalize_ifb_config g v) b)) o ≡ false
      → let d : IfbConfig F = elim o [ none ↦ b | some v ↦ normalize_ifb_config g v ] in
        (d ≡ b) ⊎ (same_ifb limits.same d b ≡ true)
  ifb_kept none b h = inl refl
  ifb_kept (some v) b h = inr (holds _ h)

  pub user_id-requested :
      (b : DesiredClientConfig F) (r : ConfigRequest F)
      → (requested g limits b r).user_id ≡ b.user_id
  unfolding requested
  user_id-requested b r = refl

  -- A request that passes the tests keeps what is locked.
  pub config-Keeps :
      (b : DesiredClientConfig F) (r : ConfigRequest F)
      → validate_config_lockout g limits b r ≡ ok tt
      → KeepsIn b (tidy g limits (requested g limits b r))
  unfolding validate_config_lockout requested
  config-Keeps b r h =
      let p = ladder _ _ _ _ _ _ _ _ _ _ _ _ _ _ _ _ h in
      record {
        lockout = refl;
        channels = λ k.
            let q = both _ _ (unlocked _ _ p.0 k) in
            (same_channels-SameSet r.listen b.listen q.0, same_channels-SameSet r.tx b.tx q.1);
        volumes = λ k.
            let q = either _ _ (unlocked _ _ p.1 k) in
            (inr (holds _ q.0), talkers_kept r.talker_vol b.talker_vol q.1);
        codec = λ k.
            let q = either _ _ (unlocked _ _ p.2 k) in
            (same_choice r.codec b.codec q.0, same_choice r.opus_profile b.opus_profile q.1);
        talk_mode = λ k. same_choice r.talk_mode b.talk_mode (unlocked _ _ p.3 k);
        priority = λ k. (
          same_choice r.priority b.priority (unlocked _ _ p.4 k),
          SameSet-trans _ _ _ (sorted_unique-SameSet _)
              (channels_kept r.priority_channels b.priority_channels (unlocked _ _ p.5 k)),
        );
        buttons = λ k. buttons_kept r.buttons b.buttons (unlocked _ _ p.6 k);
        ifb = λ k. ifb_kept r.ifb b.ifb (unlocked _ _ p.7 k);
      }

  tidied :
      (b : DesiredClientConfig F) → SameSet (tidy g limits b).priority_channels b.priority_channels
  tidied b = sorted_unique-SameSet b.priority_channels

  pub Keeps-refl : (b : DesiredClientConfig F) → KeepsIn b b
  Keeps-refl b = record {
    lockout = refl;
    channels = λ k. (λ id. refl, λ id. refl);
    volumes = λ k. (inl refl, inl refl);
    codec = λ k. (refl, refl);
    talk_mode = λ k. refl;
    priority = λ k. (refl, λ id. refl);
    buttons = λ k. refl;
    ifb = λ k. inl refl;
  }

  -- a change of the codec, the talk mode or the priority that keeps what is locked of them
  change-Keeps :
      (b : DesiredClientConfig F) (uid : Option String) (c : Codec) (mode : TalkMode) (p : Bool)
      (ids : List ℕ)
      → (b.lockout.allow_codec ≡ false → c ≡ b.codec)
      → (b.lockout.allow_talk_mode ≡ false → mode ≡ b.talk_mode)
      → (b.lockout.allow_priority ≡ false → (p ≡ b.priority) × SameSet ids b.priority_channels)
      → KeepsIn b (record b {
        client_uid = uid;
        codec = c;
        talk_mode = mode;
        priority = p;
        priority_channels = ids;
      })
  change-Keeps b uid c mode p ids codec_kept mode_kept priority_kept = record {
    lockout = refl;
    channels = λ k. (λ id. refl, λ id. refl);
    volumes = λ k. (inl refl, inl refl);
    codec = λ k. (codec_kept k, refl);
    talk_mode = mode_kept;
    priority = priority_kept;
    buttons = λ k. refl;
    ifb = λ k. inl refl;
  }

  pub codec-Keeps :
      (b : DesiredClientConfig F) (c : Codec)
      → b.lockout.allow_codec ≡ true
      → KeepsIn b (tidy g limits (record b { codec = c }))
  codec-Keeps b c h =
      change-Keeps b _ c b.talk_mode b.priority _ (λ k. clash h k) (λ k. refl)
        (λ k. (refl, tidied b))

  pub talk_mode-Keeps :
      (b : DesiredClientConfig F) (mode : TalkMode)
      → b.lockout.allow_talk_mode ≡ true
      → KeepsIn b (tidy g limits (record b { talk_mode = mode }))
  talk_mode-Keeps b mode h =
      change-Keeps b _ b.codec mode b.priority _ (λ k. refl) (λ k. clash h k)
        (λ k. (refl, tidied b))

  pub priority-Keeps :
      (b : DesiredClientConfig F) (active : Bool)
      → b.lockout.allow_priority ≡ true
      → KeepsIn b (tidy g limits (prioritized g limits b active))
  priority-Keeps b active h =
      change-Keeps b _ b.codec b.talk_mode active _ (λ k. refl) (λ k. refl) (λ k. clash h k)
