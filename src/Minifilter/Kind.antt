-- ===== src/Minifilter/Kind.antt =====
-- RG_EVENT_KIND of detectors/minifilter_bridge.py: the kinds of the driver's events.
use xodusmile.Prelude.{ℕ}

abbrev pub create : ℕ
create = 1

abbrev pub write : ℕ
write = 2

abbrev pub setinfo : ℕ
setinfo = 3

abbrev pub blocked : ℕ
blocked = 4

abbrev pub process_start : ℕ
process_start = 5

abbrev pub process_exit : ℕ
process_exit = 6

abbrev pub registry : ℕ
registry = 7

abbrev pub tamper_blocked : ℕ
tamper_blocked = 8
