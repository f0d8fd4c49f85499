-- ===== src/Engine/Jni/Calls.antt =====
-- What the JVM's calls do to the engine.
use gravital_share.Common.{ℕ, ◌≡◌, refl, ap, List, [], ◌∷◌, ◌++◌, Option, none, some, true}
use gravital_share.Common.Int.{pos}
use gravital_share.Common.Outcome.{ret, ok}
use gravital_share.Engine.FfiCode
use gravital_share.Engine.Config.{ClientConfig, EngineConfig}
use gravital_share.Engine.Json.{session_state_to_json}
use gravital_share.Engine.Session
use gravital_share.Engine.Session.{Session, client, SessionState, preparing, connecting, Notice}
use gravital_share.Engine.Runner.{
  Engine, Done, init, new_engine, get, set_instance, new_metrics, start_client, client_task,
  set_event_callback, callback_texts,
}
use gravital_share.Engine.Runner.Lifecycle.{at, tell, flags_of, start-connecting}
use gravital_share.Engine.Jni.{
  Process, Call, text_or_empty, ffi_catch, after_init, get_or_init, start_code, client_config_of,
  started, jni_start_client, with_jvm, callback_set, jni_set_event_callback, fire_jvm_event,
}

-- What a start of the client by the JVM leaves of an engine.
abbrev pub client_started : Engine → ℕ → ClientConfig → Done
client_started e n cfg = record {
  engine = record e { session = at (connecting client 1) e.session.listeners };
  result = ok tt;
  notices =
      tell e.session.listeners (preparing client) ++ tell e.session.listeners (connecting client 1);
  flags = flags_of e.session.state;
  spawned = client_task (pos n) cfg ∷ [];
}

start_client-pos :
    (e : Engine) (n : ℕ) (cfg : ClientConfig) → start_client e (pos n) cfg ≡ client_started e n cfg
unfolding start_client
start_client-pos e n cfg = start-connecting e client (client_task (pos n) cfg)

started-client :
    (p : Process) (e : Engine) (n : ℕ) (cfg : ClientConfig)
    → started p (λ e. start_client e (pos n) cfg) (some e, ok e) ≡ record {
      process = record p { instance = some (client_started e n cfg).engine };
      code = FfiCode.success;
      done = some (client_started e n cfg);
    }
unfolding started start_code ffi_catch
started-client p e n cfg =
    ap {B = Call}
      (λ (d : Done). record {
        process = record p { instance = some d.engine };
        code = ffi_catch (ret (start_code d.result));
        done = some d;
      })
      (start_client-pos e n cfg)

-- A process before its first call.
abbrev pub fresh : Process
fresh = record { instance = none; jvm = none; callback = none }

-- The engine and the process behind the registration.
abbrev pub listening : Engine
listening = record {
  session = at SessionState.idle (0 ∷ []);
  metrics = new_metrics;
  event_callback = some 1;
}

abbrev pub registered : ℕ → ℕ → Process
registered vm ref = record { instance = some listening; jvm = some vm; callback = some ref }

set_on_fresh :
    (vm ref : ℕ)
    → jni_set_event_callback fresh (ok tt) (some vm) (some ref)
      ≡ record { process = registered vm ref; code = FfiCode.success; done = none }
unfolding jni_set_event_callback with_jvm callback_set get_or_init after_init init set_instance
    new_engine get set_event_callback ffi_catch Session.add_listener Session.new
set_on_fresh vm ref = refl

start_registered :
    (from_str : List ℕ → Option EngineConfig) (vm ref n : ℕ) (json : Option (List ℕ))
    → let done = client_started listening n (client_config_of (from_str (text_or_empty json))) in
      jni_start_client from_str (registered vm ref) (ok tt) (pos n) json ≡ record {
        process = record (registered vm ref) { instance = some done.engine };
        code = FfiCode.success;
        done = some done;
      }
unfolding jni_start_client get_or_init
start_registered from_str vm ref n json =
    started-client (registered vm ref) listening n
      (client_config_of (from_str (text_or_empty json)))

-- A process without an engine registers a callback and starts a client, and the runtime, the JVM
-- and the reference are to be had: both calls say OK, the callback is called with the texts of
-- the two transitions, in order, and every text reaches the registered reference.
callback-start :
    (from_str : List ℕ → Option EngineConfig) (show_v6 : List ℕ → List ℕ) (vm ref n : ℕ)
    (json : Option (List ℕ)) (text : List ℕ)
    → let set = jni_set_event_callback fresh (ok tt) (some vm) (some ref) in
      let call = jni_start_client from_str set.process (ok tt) (pos n) json in
      (set.code ≡ FfiCode.success)
      × (call.code ≡ FfiCode.success)
      × ((d : Done) × (call.done ≡ some d)
          × (callback_texts show_v6 d.engine.event_callback d.notices
              ≡ (1, session_state_to_json show_v6 (preparing client))
                ∷ (1, session_state_to_json show_v6 (connecting client 1))
                ∷ []))
      × (fire_jvm_event call.process true true text ≡ (ref, text) ∷ [])
unfolding fire_jvm_event callback_texts
callback-start from_str show_v6 vm ref n json text =
    rw (set_on_fresh vm ref)
      (rw (start_registered from_str vm ref n json) (refl, refl, (_, refl, refl), refl))
