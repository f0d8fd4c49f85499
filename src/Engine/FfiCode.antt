-- ===== src/Engine/FfiCode.antt =====
-- engine/crates/gravital-engine/src/error.rs: the codes of the foreign interfaces; `negsuc n` is
-- `-(n + 1)`.
use gravital_share.Common.Int.{ℤ, pos, negsuc}

abbrev pub success : ℤ
success = pos 0

abbrev pub invalid_arg : ℤ
invalid_arg = negsuc 0

abbrev pub already_initialized : ℤ
already_initialized = negsuc 1

abbrev pub not_initialized : ℤ
not_initialized = negsuc 2

abbrev pub invalid_fd : ℤ
invalid_fd = negsuc 3

abbrev pub config_invalid : ℤ
config_invalid = negsuc 4

abbrev pub internal_panic : ℤ
internal_panic = negsuc 5

abbrev pub buffer_too_small : ℤ
buffer_too_small = negsuc 6

abbrev pub io_error : ℤ
io_error = negsuc 7

abbrev pub state_transition_invalid : ℤ
state_transition_invalid = negsuc 8
