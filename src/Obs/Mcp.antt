-- ===== src/Obs/Mcp.antt =====
-- engine/crates/gravital-obs/src/mcp.rs: a request to the diagnostic endpoint. Text is a list of
-- code points; UTF-8 is the parameter `from_utf8`, and serde's texts of the three snapshots are
-- the record `Bodies`.
pub mod Serve
pub mod Token
use gravital_share.Common.{
  ℕ, zero, suc, ◌+◌, ◌-◌, ◌/◌, ◌%◌, ltb, ◌≡◌, refl, List, [], ◌∷◌, ◌++◌, Option, none, some, Bool,
  true, false, ◌&&◌, ◌||◌, not, leb, ◌==◌, if◌then◌else◌, length, ℕ_discrete,
}
use mathlib.Core.Logic.{ite}
use gravital_share.Common.Io.{IoError}
use gravital_share.Common.Outcome.{Result, ok, err}
use gravital_share.Common.Sock.{Sock, read}
use gravital_share.Common.Text.{codes, digits}

abbrev pub mcp_port : ℕ
mcp_port = 7423

-- The low byte of the hash of a reading of the clock. The keys of `DefaultHasher::new` are fixed, so
-- `hash` is one function.
rand_byte : (ℕ → ℕ) → ℕ → ℕ
rand_byte hash now = hash now % 256

-- `format!("{:02x}", b)`
abbrev hex_digit : ℕ → ℕ
hex_digit d = if ltb d 10 then b'0' + d else b'a' + (d - 10)

abbrev hex_pair : ℕ → List ℕ
hex_pair b = hex_digit (b / 16) ∷ hex_digit (b % 16) ∷ []

-- The token of a new endpoint, from the readings of the clock, of which there are 32.
new_token : (ℕ → ℕ) → List ℕ → List ℕ
unfolding rand_byte
new_token hash [] = []
new_token hash (now ∷ times) = hex_pair (rand_byte hash now) ++ new_token hash times

-- `str::starts_with` and `str::contains`.
unfoldable pub starts_with : List ℕ → List ℕ → Bool
starts_with [] text = true
starts_with (c ∷ cs) [] = false
starts_with (c ∷ cs) (x ∷ text) = let rest = starts_with cs text in c == x && rest

unfoldable pub contains : List ℕ → List ℕ → Bool
unfolding starts_with
contains pattern [] = starts_with pattern []
contains pattern (x ∷ text) =
    let rest = contains pattern text in starts_with pattern (x ∷ text) || rest

-- `char::is_whitespace`
abbrev pub is_whitespace : ℕ → Bool
is_whitespace c =
    (leb 9 c && leb c 13)
    || c == 32
    || c == 0x85
    || c == 0xA0
    || c == 0x1680
    || (leb 0x2000 c && leb c 0x200A)
    || c == 0x2028
    || c == 0x2029
    || c == 0x202F
    || c == 0x205F
    || c == 0x3000

-- The text up to the first line feed; a carriage return before it is white space to its reader.
first_line : List ℕ → List ℕ
first_line [] = []
first_line (c ∷ cs) = let rest = first_line cs in if c == 10 then [] else c ∷ rest

-- The words behind the word `word` that is being read.
words_from : List ℕ → List ℕ → List (List ℕ)
words_from [] [] = []
words_from (w ∷ word) [] = (w ∷ word) ∷ []
words_from [] (c ∷ cs) =
    let rest = words_from [] cs in
    let longer = words_from (c ∷ []) cs in if is_whitespace c then rest else longer
words_from (w ∷ word) (c ∷ cs) =
    let rest = words_from [] cs in
    let longer = words_from ((w ∷ word) ++ (c ∷ [])) cs in
    if is_whitespace c then (w ∷ word) ∷ rest else longer

-- `.nth(1)`, or "/".
abbrev pub second_or_root : List (List ℕ) → List ℕ
second_or_root [] = codes "/"
second_or_root (a ∷ []) = codes "/"
second_or_root (a ∷ b ∷ ws) = b

extract_path : List ℕ → List ℕ
unfolding words_from first_line
extract_path req = second_or_root (words_from [] (first_line req))

pub record Bodies : Type 0 where
  pub state_json : List ℕ
  pub metrics_json : List ℕ
  pub dns_check_json : List ℕ

pub path-discrete : Discrete (List ℕ)
path-discrete = hlevel ℕ_discrete

-- The two matches on the path: the status line's end and the body.
route : Bodies → List ℕ → List ℕ × List ℕ
route b path =
    ite (path-discrete path (codes "/state")) (codes "200 OK", b.state_json)
      (ite (path-discrete path (codes "/metrics")) (codes "200 OK", b.metrics_json)
        (ite (path-discrete path (codes "/dns/check")) (codes "200 OK", b.dns_check_json)
          (codes "404 Not Found", codes "{\"error\":\"not found\"}")))

abbrev pub unauthorized : List ℕ
unauthorized = codes "HTTP/1.1 401 Unauthorized\r\nContent-Length: 0\r\n\r\n"

-- The answer; twenty digits are enough for a length.
pub answer : List ℕ × List ℕ → List ℕ
answer (status, body) =
    codes "HTTP/1.1 "
    ++ (status
        ++ (codes "\r\nContent-Type: application/json\r\nContent-Length: "
            ++ (digits 19 (length body) ++ (codes "\r\n\r\n" ++ body))))

-- `write_all`.
unfoldable pub write_all : List ℕ → Sock → Sock × Result IoError (Unit {0})
write_all bs s = elim s.broken [
  | some e ↦ (s, err e)
  | none ↦ (record s { output = s.output ++ bs }, ok tt)
]

-- `from_utf8(..).unwrap_or("")`
abbrev pub text_or_empty : Option (List ℕ) → List ℕ
text_or_empty none = []
text_or_empty (some t) = t

pub respond : Bodies → List ℕ → List ℕ → Sock → Sock × Result IoError (Unit {0})
unfolding contains extract_path route answer write_all
respond b token req =
    if contains (codes "Authorization: Bearer " ++ token) req
    then write_all (answer (route b (extract_path req)))
    else write_all unauthorized

-- What follows the one read of at most 4096 bytes.
pub after_read :
    (List ℕ → Option (List ℕ))
    → Bodies
    → List ℕ
    → Sock × Result IoError (List ℕ)
    → Sock × Result IoError (Unit {0})
unfolding respond
after_read from_utf8 b token (s, err e) = (s, err e)
after_read from_utf8 b token (s, ok bytes) = respond b token (text_or_empty (from_utf8 bytes)) s

pub handle_mcp_request :
    (List ℕ → Option (List ℕ)) → Bodies → List ℕ → Sock → Sock × Result IoError (Unit {0})
unfolding after_read
handle_mcp_request from_utf8 b token s = after_read from_utf8 b token (read 4096 s)
