-- ===== src/Engine/Jni.antt =====
-- engine/crates/gravital-engine/src/jni_android.rs: the entry points of the JVM. What the JVM, the
-- runtime and serde give is a parameter of the call: the text of a Java string, if it can be read,
-- the configuration that a text holds, and the results of the JVM's own calls.
pub mod Calls
use gravital_share.Common.{ℕ, List, [], ◌∷◌, Option, none, some, Bool, true, false, if◌then◌else◌}
use gravital_share.Common.Int.{ℤ, is_negative}
use gravital_share.Common.Io.{IoError}
use gravital_share.Common.Outcome.{Outcome, ret, panic, Result, ok, err}
use gravital_share.Common.Text.{codes}
use gravital_share.Engine.Errors.{
  EngineError, already_initialized, not_initialized, config_invalid, invalid_fd, invalid_transition,
  io, panicked,
}
use gravital_share.Engine.FfiCode
use gravital_share.Engine.Config.{
  ClientConfig, ServerConfig, EngineConfig, client, server, default_client, default_server,
}
use gravital_share.Engine.Runner.{
  Engine, Done, init, get, start_server, start_client, stop, shutdown, set_event_callback,
  ffi_version,
}

-- `INSTANCE`, `JVM_INSTANCE` and `EVENT_CALLBACK`; a reference of the JVM is a number.
pub record Process : Type 0 where
  pub instance : Option Engine
  pub jvm : Option ℕ
  pub callback : Option ℕ

-- A call: the process, the code, and what the engine did, if it was asked.
pub record Call : Type 0 where
  pub process : Process
  pub code : ℤ
  pub done : Option Done

-- `ffi_catch!`
pub ffi_catch : Outcome ℤ → ℤ
ffi_catch (ret v) = v
ffi_catch panic = FfiCode.internal_panic

-- `unwrap_or_default` on the text of a Java string.
abbrev pub text_or_empty : Option (List ℕ) → List ℕ
text_or_empty none = []
text_or_empty (some t) = t

-- What follows `init` in `get_or_init`.
pub after_init :
    Option Engine × Result EngineError (Unit {0}) → Option Engine × Result EngineError Engine
after_init (instance, ok _) = (instance, get instance)
after_init (instance, err already_initialized) = (instance, get instance)
after_init (instance, err not_initialized) = (instance, err not_initialized)
after_init (instance, err (config_invalid t)) = (instance, err (config_invalid t))
after_init (instance, err invalid_fd) = (instance, err invalid_fd)
after_init (instance, err invalid_transition) = (instance, err invalid_transition)
after_init (instance, err (io e)) = (instance, err (io e))
after_init (instance, err (panicked t)) = (instance, err (panicked t))

pub get_or_init :
    Option Engine → Result IoError (Unit {0}) → Option Engine × Result EngineError Engine
unfolding after_init
get_or_init (some e) runtime = (some e, ok e)
get_or_init none runtime = after_init (init none runtime)

-- The code of `init`.
init_code : Result EngineError (Unit {0}) → ℤ
init_code (ok _) = FfiCode.success
init_code (err already_initialized) = FfiCode.success
init_code (err not_initialized) = FfiCode.invalid_arg
init_code (err (config_invalid t)) = FfiCode.invalid_arg
init_code (err invalid_fd) = FfiCode.invalid_arg
init_code (err invalid_transition) = FfiCode.invalid_arg
init_code (err (io e)) = FfiCode.invalid_arg
init_code (err (panicked t)) = FfiCode.invalid_arg

unfoldable pub jni_init : Process → Result IoError (Unit {0}) → Call
unfolding init_code
jni_init p runtime =
    let r = init p.instance runtime in
    record {
      process = record p { instance = r.0 };
      code = ffi_catch (ret (init_code r.1));
      done = none;
    }

-- The code of a start.
pub start_code : Result EngineError (Unit {0}) → ℤ
start_code (ok _) = FfiCode.success
start_code (err invalid_fd) = FfiCode.invalid_fd
start_code (err already_initialized) = FfiCode.invalid_arg
start_code (err not_initialized) = FfiCode.invalid_arg
start_code (err (config_invalid t)) = FfiCode.invalid_arg
start_code (err invalid_transition) = FfiCode.invalid_arg
start_code (err (io e)) = FfiCode.invalid_arg
start_code (err (panicked t)) = FfiCode.invalid_arg

-- The configuration of a mode, or the default.
server_config_of : Option EngineConfig → ServerConfig
server_config_of none = default_server
server_config_of (some (client c)) = default_server
server_config_of (some (server c)) = c

pub client_config_of : Option EngineConfig → ClientConfig
client_config_of none = default_client
client_config_of (some (client c)) = c
client_config_of (some (server c)) = default_client

-- The engine, once it is there, is started and put back.
pub started : Process → (Engine → Done) → Option Engine × Result EngineError Engine → Call
unfolding start_code
started p go (instance, err _) = record {
  process = record p { instance = instance };
  code = ffi_catch (ret FfiCode.not_initialized);
  done = none;
}
started p go (instance, ok e) = record {
  process = record p { instance = some (go e).engine };
  code = ffi_catch (ret (start_code (go e).result));
  done = some (go e);
}

-- `from_str` is serde's reading of a configuration.
unfoldable pub jni_start_server :
    (List ℕ → Option EngineConfig) → Process → Result IoError (Unit {0}) → Option (List ℕ) → Call
unfolding started get_or_init server_config_of
jni_start_server from_str p runtime json =
    started p (λ e. start_server e (server_config_of (from_str (text_or_empty json))))
      (get_or_init p.instance runtime)

pub jni_start_client :
    (List ℕ → Option EngineConfig)
    → Process
    → Result IoError (Unit {0})
    → ℤ
    → Option (List ℕ)
    → Call
unfolding started get_or_init client_config_of
jni_start_client from_str p runtime tun_fd json =
    if is_negative tun_fd
    then record { process = p; code = ffi_catch (ret FfiCode.invalid_fd); done = none }
    else started p (λ e. start_client e tun_fd (client_config_of (from_str (text_or_empty json))))
        (get_or_init p.instance runtime)

-- The code of a stop.
stop_code : Result EngineError (Unit {0}) → ℤ
stop_code (ok _) = FfiCode.success
stop_code (err _) = FfiCode.invalid_arg

unfoldable pub jni_stop : Process → Call
unfolding stop_code
jni_stop p = elim p.instance [
  | none ↦ record { process = p; code = ffi_catch (ret FfiCode.success); done = none }
  | some e ↦ record {
    process = record p { instance = some (stop e).engine };
    code = ffi_catch (ret (stop_code (stop e).result));
    done = some (stop e);
  }
]

unfoldable pub jni_shutdown : Process → Call
jni_shutdown p = elim p.instance [
  | none ↦ record { process = p; code = ffi_catch (ret FfiCode.success); done = none }
  | some e ↦ record {
    process = record p { instance = some (shutdown e).engine };
    code = ffi_catch (ret FfiCode.success);
    done = some (shutdown e);
  }
]

-- `get_java_vm`, if no JVM is known yet; `new_global_ref`; then the engine, which gets
-- `fire_jvm_event` as its callback (number 1).
pub callback_set : Process → Option Engine × Result EngineError Engine → Call
callback_set p (instance, err _) = record {
  process = record p { instance = instance };
  code = ffi_catch (ret FfiCode.not_initialized);
  done = none;
}
callback_set p (instance, ok e) = record {
  process = record p { instance = some (set_event_callback e 1) };
  code = ffi_catch (ret FfiCode.success);
  done = none;
}

pub with_jvm : Process → Result IoError (Unit {0}) → Option ℕ → Call
unfolding callback_set get_or_init
with_jvm p runtime none = record {
  process = p;
  code = ffi_catch (ret FfiCode.internal_panic);
  done = none;
}
with_jvm p runtime (some global_ref) =
    callback_set (record p { callback = some global_ref }) (get_or_init p.instance runtime)

pub jni_set_event_callback : Process → Result IoError (Unit {0}) → Option ℕ → Option ℕ → Call
unfolding with_jvm
jni_set_event_callback p runtime java_vm global_ref = elim p.jvm [
  | some vm ↦ with_jvm p runtime global_ref
  | none ↦ elim java_vm [
    | none ↦ record { process = p; code = ffi_catch (ret FfiCode.internal_panic); done = none }
    | some vm ↦ with_jvm (record p { jvm = some vm }) runtime global_ref
  ]
]

-- The calls of `onEvent` that an event makes; `attached` and `new_string` are the JVM's answers.
pub fire_jvm_event : Process → Bool → Bool → List ℕ → List (ℕ × List ℕ)
fire_jvm_event p attached new_string json = elim p.jvm [
  | none ↦ []
  | some vm ↦ elim p.callback [
    | none ↦ []
    | some cb ↦ if attached then (if new_string then (cb, json) ∷ [] else []) else []
  ]
]

-- The texts of the state and of the metrics, of which the engine's own are parameters.
unfoldable pub jni_get_state : (Engine → List ℕ) → Process → List ℕ
jni_get_state state_json p = elim p.instance [
  | none ↦ codes "{\"state\":\"Idle\"}"
  | some e ↦ state_json e
]

unfoldable pub jni_get_stats : (Engine → List ℕ) → Process → List ℕ
jni_get_stats metrics_json p = elim p.instance [
  | none ↦ codes "{\"bytes_in\":0,\"bytes_out\":0}"
  | some e ↦ metrics_json e
]
