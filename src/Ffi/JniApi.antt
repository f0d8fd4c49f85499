-- ===== src/Ffi/JniApi.antt =====
-- engine/crates/gravital-ffi/src/jni_api.rs: the entry points of the older JVM bindings, which
-- call no engine. `none` is a Java string that cannot be read or made.
use gravital_share.Common.{ℕ, List, Option}
use gravital_share.Common.Int.{ℤ, pos, negsuc}
use gravital_share.Common.Outcome.{Outcome, ret, panic}
use gravital_share.Common.Text.{codes}
use gravital_share.Ffi.CApi

-- The match on `catch_unwind`.
unfoldable pub caught : Outcome ℤ → ℤ
caught (ret v) = v
caught panic = negsuc 5

unfoldable pub bridge_init : Option (List ℕ) → ℤ
bridge_init config_json = caught (ret (pos 0))

unfoldable pub bridge_start_client : ℤ → Option (List ℕ) → ℤ
bridge_start_client (negsuc n) config_json = caught (ret (negsuc 3))
bridge_start_client (pos n) config_json = caught (ret (pos 0))

unfoldable pub bridge_start_server : Option (List ℕ) → ℤ
bridge_start_server config_json = caught (ret (pos 0))

abbrev pub bridge_stop : ℤ
bridge_stop = pos 0

abbrev pub bridge_shutdown : ℤ
bridge_shutdown = pos 0

-- `new_string` gives a reference or fails, which gives a null pointer.
unfoldable pub bridge_get_state : (List ℕ → Option ℕ) → Option ℕ
bridge_get_state new_string = new_string (codes "{\"state\":\"Idle\"}")

unfoldable pub bridge_get_stats : (List ℕ → Option ℕ) → Option ℕ
bridge_get_stats new_string = new_string (codes "{\"bytes_in\":0,\"bytes_out\":0}")

abbrev pub bridge_ffi_version : ℕ
bridge_ffi_version = CApi.ffi_version
