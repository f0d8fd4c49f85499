-- ===== src/Ffi/CApi.antt =====
-- engine/crates/gravital-ffi/src/c_api.rs. A pointer is `none` if it is null; behind a pointer to a
-- buffer are its bytes, which the caller guarantees to be as many as the length given.
use gravital_share.Common.{
  ℕ, ◌+◌, ◌-◌, ◌%◌, ◌^◌, ◌≤◌, ◌<◌, ◌≡◌, ◌≢◌, refl, ap, arith, List, [], ◌∷◌, ◌++◌, Option, none,
  some, ltb, lt→ltb, ◌==◌, if◌then◌else◌, length, length-append, length-drop, drop, All,
}
use gravital_share.Common.Int.{ℤ, pos, negsuc}
use gravital_share.Common.Outcome.{Outcome, ret, panic}
use gravital_share.Common.Text.{codes}

abbrev pub ffi_version : ℕ
ffi_version = 1

-- `catch_panic!`
unfoldable pub catch_panic : Outcome ℤ → ℤ
catch_panic (ret v) = v
catch_panic panic = negsuc 5

-- `as i32`
as_i32 : ℕ → ℤ
as_i32 n = if ltb (n % 2 ^ 32) (2 ^ 31) then pos (n % 2 ^ 32) else negsuc (2 ^ 32 - 1 - n % 2 ^ 32)

-- The bytes and the zero byte over the beginning of the buffer.
write_str_at : List ℕ → List ℕ → ℕ → List ℕ × ℤ
unfolding as_i32
write_str_at s buf len =
    if len == 0
    then (buf, negsuc 6)
    else if ltb len (length s + 1)
    then (buf, negsuc 6)
    else (s ++ (0 ∷ drop (length s + 1) buf), as_i32 (length s))

write_str_to_buf : List ℕ → Option (List ℕ) → ℕ → Option (List ℕ) × ℤ
unfolding write_str_at
write_str_to_buf s none len = (none, negsuc 6)
write_str_to_buf s (some buf) len = let r = write_str_at s buf len in (some r.0, r.1)

-- The entry points only check their arguments; none calls the engine.
unfoldable pub gravital_engine_init : Option (List ℕ) → ℤ
gravital_engine_init config_json = catch_panic (ret (pos 0))

unfoldable pub gravital_engine_start_server : Option (List ℕ) → ℤ
gravital_engine_start_server none = catch_panic (ret (negsuc 0))
gravital_engine_start_server (some json) = catch_panic (ret (pos 0))

unfoldable pub gravital_engine_start_client : ℤ → Option (List ℕ) → ℤ
gravital_engine_start_client (negsuc n) config_json = catch_panic (ret (negsuc 3))
gravital_engine_start_client (pos n) none = catch_panic (ret (negsuc 0))
gravital_engine_start_client (pos n) (some json) = catch_panic (ret (pos 0))

abbrev pub gravital_engine_stop : ℤ
gravital_engine_stop = catch_panic (ret (pos 0))

abbrev pub gravital_engine_shutdown : ℤ
gravital_engine_shutdown = catch_panic (ret (pos 0))

unfoldable pub gravital_engine_get_state : Option (List ℕ) → ℕ → Option (List ℕ) × ℤ
unfolding write_str_to_buf
gravital_engine_get_state = write_str_to_buf (codes "{\"state\":\"Idle\"}")

unfoldable pub gravital_engine_get_stats : Option (List ℕ) → ℕ → Option (List ℕ) × ℤ
unfolding write_str_to_buf
gravital_engine_get_stats = write_str_to_buf (codes "{\"bytes_in\":0,\"bytes_out\":0}")

abbrev pub gravital_engine_version : List ℕ
gravital_engine_version = codes "0.1.0" ++ (0 ∷ [])

abbrev pub gravital_engine_ffi_version : ℕ
gravital_engine_ffi_version = ffi_version

-- What C reads behind a pointer: the bytes before the first zero byte.
abbrev pub c_str : List ℕ → List ℕ
c_str [] = []
c_str (c ∷ cs) = let rest = c_str cs in if c == 0 then [] else c ∷ rest

c_str-append : (s rest : List ℕ) → All (λ c. c ≢ 0) s → c_str (s ++ (0 ∷ rest)) ≡ s
c_str-append [] rest h = refl
c_str-append (c ∷ s) rest (ne, h) = ground (arith, c_str-append s rest h)

as_i32_small : (n : ℕ) → n < 2147483648 → as_i32 n ≡ pos n
unfolding as_i32
as_i32_small n h = let low : n % 2 ^ 32 ≡ n = omega arith in rw (low, lt→ltb n (2 ^ 31) h) refl

write_str_at-fits :
    (s buf : List ℕ)
    → length s < 2147483648
    → length s < length buf
    → write_str_at s buf (length buf) ≡ (s ++ (0 ∷ drop (length s + 1) buf), pos (length s))
unfolding write_str_at
write_str_at-fits s buf small fits = ground (arith, as_i32_small (length s))

write_str_at-big :
    (s buf : List ℕ) → length buf ≤ length s → write_str_at s buf (length buf) ≡ (buf, negsuc 6)
unfolding write_str_at
write_str_at-big s buf big = ground arith

-- A text without zero bytes and shorter than 2 ^ 31 bytes, and a buffer of the length given: if the
-- text and a zero byte fit, C reads the text back from the buffer, nothing is written outside of
-- it, and the code is the text's length; otherwise the buffer is unchanged and the
-- code is -7.
write_str_to_buf-reads :
    (s buf : List ℕ)
    → All (λ c. c ≢ 0) s
    → length s < 2147483648
    → (length s < length buf
        → (out : List ℕ) × (write_str_to_buf s (some buf) (length buf) ≡ (some out, pos (length s)))
          × (c_str out ≡ s)
          × (length out ≡ length buf))
      × (length buf ≤ length s → write_str_to_buf s (some buf) (length buf) ≡ (some buf, negsuc 6))
unfolding write_str_to_buf
write_str_to_buf-reads s buf h small = (
  λ fits. (
    s ++ (0 ∷ drop (length s + 1) buf),
    ap {B = Option (List ℕ) × ℤ} (λ (r : List ℕ × ℤ). (some r.0, r.1))
        (write_str_at-fits s buf small fits),
    c_str-append s (drop (length s + 1) buf) h,
    omega (arith, length-append s (0 ∷ drop (length s + 1) buf), length-drop (length s + 1) buf),
  ),
  λ big.
      ap {B = Option (List ℕ) × ℤ} (λ (r : List ℕ × ℤ). (some r.0, r.1))
        (write_str_at-big s buf big),
)
