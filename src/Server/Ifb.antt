-- ===== src/Server/Ifb.antt =====
-- server/src/lib.rs: the channels and the gain of interruptible feedback (IFB).
pub mod Normal
use open_broadcast_intercom.Base.{Bool, not, filter, contains, nat_eq}
use open_broadcast_intercom.Base.Sorted.{nat_ord, sorted_unique}
use open_broadcast_intercom.Control.{IfbConfig}
use open_broadcast_intercom.Server.Gains.{Gains}
use open_broadcast_intercom.Server.Emergency.{normalize_duck_gain}

module _ (g : Gains) where
  open g use {F}

  -- `normalize_ifb_config`; its gain is computed as by `normalize_duck_gain`
  unfoldable pub normalize_ifb_config : IfbConfig F → IfbConfig F
  normalize_ifb_config ifb =
      let interrupt = sorted_unique nat_ord ifb.interrupt in
      record ifb {
        program =
            filter (λ channel. not (contains interrupt channel))
              (sorted_unique nat_ord ifb.program);
        interrupt = interrupt;
        duck_gain = normalize_duck_gain g ifb.duck_gain;
      }
