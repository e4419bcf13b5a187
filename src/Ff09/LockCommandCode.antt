-- ===== src/Ff09/LockCommandCode.antt =====
-- `LOCK_COMMAND_CODE` of src/transport/ff09.ts: the inner opcodes that the builders send.
use eufy_sdk.Prelude.{ℕ}

abbrev pub on_off_lock : ℕ
on_off_lock = 35

abbrev pub get_settings : ℕ
get_settings = 53

abbrev pub set_settings : ℕ
set_settings = 52
