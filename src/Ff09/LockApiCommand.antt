-- ===== src/Ff09/LockApiCommand.antt =====
-- `LOCK_API_COMMAND` of src/transport/ff09.ts: the values that the builders send.
use eufy_sdk.Prelude.{ℕ}

abbrev pub on_off_lock : ℕ
on_off_lock = 6018

abbrev pub get_settings : ℕ
get_settings = 6016

abbrev pub set_settings : ℕ
set_settings = 6015
