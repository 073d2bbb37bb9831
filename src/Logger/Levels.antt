-- ===== src/Logger/Levels.antt =====
-- The level filter of `logger_log` in src/core/logger.c.
use omni_socket.Base.{
  ◌≤◌, ◌≡◌, ap, refl, ◌≢◌, false, ◌∙◌, Bool, true, Bytes, Option, none, some, ltb, le→ltb, arith,
  if◌then◌else◌,
}
use omni_socket.Logger.{LogLine, logger_log, level_to_int}
use Prim.Native.String.{String}

level_to_int_bound : (level : Option String) → level_to_int level ≤ 3
unfolding level_to_int
level_to_int_bound none = omega arith
level_to_int_bound (some level) = ground arith

error_is_three : level_to_int (some "ERROR") ≡ 3
unfolding level_to_int
error_is_three = refl

no_line :
    (hides : Bool) (line : LogLine) → hides ≡ false → (if hides then none else some line) ≢ none
no_line true line shown hidden = absurd (cc)
no_line false line shown hidden = absurd (cc)

-- Errors are always logged: whatever OMNI_LOG_LEVEL holds when `logger_init` reads it, a call of `logger_log` with the
-- level ERROR prints a line.
pub logger_log_error :
    (lvl_env : Option String) (json_open : Bool) (component : Option String) (text : Bytes)
    → logger_log (level_to_int lvl_env) json_open (some "ERROR") component text ≢ none
unfolding logger_log
logger_log_error lvl_env json_open component text hidden =
    let shown : ltb (level_to_int (some "ERROR")) (level_to_int lvl_env) ≡ false =
      ap (λ n. ltb n (level_to_int lvl_env)) error_is_three
      ∙ le→ltb 3 (level_to_int lvl_env) (level_to_int_bound lvl_env) in
    no_line _ _ shown hidden
