-- ===== src/Tests/Calling.antt =====
-- Direct calls, and the end of a connection.
use open_broadcast_intercom.Base.{ℕ, ◌≡◌, ◌≢◌, ◌⊎◌, true, false, arith, err}
use open_broadcast_intercom.Base.Map
use open_broadcast_intercom.Server.State.{direct_call_yourself, unknown_target_client, new_session}
use open_broadcast_intercom.Server.Calls.{apply_direct_call_event}
use open_broadcast_intercom.Server.Calls.Effect.{Calls, direct_call_effect}
use open_broadcast_intercom.Server.Calls.Bound.{Short, history, direct_call-Short}
use open_broadcast_intercom.Server.Buttons.{clear_active_buttons}
use open_broadcast_intercom.Server.Buttons.Release.{Releases, clear-Releases}
use open_broadcast_intercom.Tests.Samples.{hundredths, clients, show}

direct_call_effect_example :
    let result = apply_direct_call_event hundredths show 9 2 3 true false in
    ((◌≡◌ {A = ℕ} 2 3) × (result ≡ (err direct_call_yourself, show)))
    ⊎ ((◌≢◌ {A = ℕ} 2 3)
        × (Map.contains_key show.sessions 3 ≡ false)
        × (result ≡ (err (unknown_target_client 3), show)))
    ⊎ ((◌≢◌ {A = ℕ} 2 3)
        × (Map.contains_key show.sessions 3 ≡ true)
        × Calls hundredths show 2 3 true false result)
direct_call_effect_example = direct_call_effect hundredths show 9 2 3 true false

clients-Short : Short clients
unfolding history Map.get new_session
clients-Short v = ground arith

direct_call-Short_example :
    Short (apply_direct_call_event hundredths show 9 2 3 true false).1.sessions
direct_call-Short_example = direct_call-Short hundredths show 9 2 3 true false clients-Short

clear-Releases_example : Releases show 1 (clear_active_buttons show 9 1)
clear-Releases_example = clear-Releases show 9 1
