-- ===== src/Logging/Names.antt =====
-- The texts that the encoders append for the levels below Debug.
use konfirm.Base.{
  ℕ, ◌<◌, ◌==◌, ◌≡◌, true, String, List, ℤ, pos, negsuc, int_lt, decimal, if◌then◌else◌,
}
use konfirm.Logging.Levels.{Level, debug_level}

-- The range of an int8.
abbrev pub IsInt8 : ℤ → Type 0
IsInt8 (pos n) = n < 128
IsInt8 (negsuc n) = n < 128

-- What follows the text for the level that lies `n` below Debug.
abbrev suffix : ℕ → String
suffix n = if n == 1 then "" else decimal n

-- `level` is a level below Debug that an int8 can hold.
pub record IsTrace (level : Level) : Type 0 where
  pub range : IsInt8 level
  pub low : int_lt level debug_level ≡ true
