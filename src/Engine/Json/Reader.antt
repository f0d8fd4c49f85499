-- ===== src/Engine/Json/Reader.antt =====
-- What a reader of the texts learns.
use gravital_share.Common.{ℕ, ◌≡◌, refl, List, [], ◌∷◌, ◌==◌, if◌then◌else◌, length, take, drop}
use gravital_share.Common.Text.{codes}
use gravital_share.Engine.Session.{
  SessionState, idle, preparing, connecting, connected, reconnecting, stopping, failed,
}
use gravital_share.Engine.Json.{session_state_to_json}

-- The text up to the next quotation mark.
abbrev pub until_quote : List ℕ → List ℕ
until_quote [] = []
until_quote (c ∷ cs) = let rest = until_quote cs in if c == b'"' then [] else c ∷ rest

-- What every text begins with, up to the value of "to".
abbrev pub prefix : List ℕ
prefix = codes "{\"kind\":\"session.transition\",\"to\":\""

abbrev pub to_field : List ℕ → List ℕ
to_field text = until_quote (drop (length prefix) text)

-- The name of a state, as the source spells its constructor.
abbrev pub state_name : SessionState → List ℕ
state_name idle = codes "Idle"
state_name (preparing m) = codes "Preparing"
state_name (connecting m n) = codes "Connecting"
state_name (connected m p) = codes "Connected"
state_name (reconnecting m n l) = codes "Reconnecting"
state_name (stopping m r) = codes "Stopping"
state_name (failed m k b) = codes "Failed"

-- The text of every state begins with the kind of the event, and its field "to", read up to the
-- next quotation mark, is the name of the state.
session_state_to_json-named :
    (show_v6 : List ℕ → List ℕ) (s : SessionState)
    → (take (length prefix) (session_state_to_json show_v6 s) ≡ prefix)
      × (to_field (session_state_to_json show_v6 s) ≡ state_name s)
unfolding session_state_to_json
session_state_to_json-named show_v6 idle = (refl, refl)
session_state_to_json-named show_v6 (preparing m) = (refl, refl)
session_state_to_json-named show_v6 (connecting m n) = (refl, refl)
session_state_to_json-named show_v6 (connected m p) = (refl, refl)
session_state_to_json-named show_v6 (reconnecting m n l) = (refl, refl)
session_state_to_json-named show_v6 (stopping m r) = (refl, refl)
session_state_to_json-named show_v6 (failed m k b) = (refl, refl)
