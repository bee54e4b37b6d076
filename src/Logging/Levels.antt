-- ===== src/Logging/Levels.antt =====
-- `LowercaseLevelEncoder` and `CapitalLevelEncoder`.
use konfirm.Base.{
  ℕ, suc, ◌+◌, ◌-◌, ◌%◌, ◌^◌, String, List, [], ◌∷◌, ◌++◌, ℤ, pos, negsuc, ltb, int_lt, concat,
  decimal, if◌then◌else◌,
}

-- `zapcore.Level`, an int8, as the integer that it stands for; and `zapcore.DebugLevel`.
abbrev pub Level : Type 0
Level = ℤ

abbrev pub debug_level : Level
debug_level = negsuc 0

-- The bits of an int8, and back.
abbrev pub bits : ℤ → ℕ
bits (pos n) = n % 2 ^ 8
bits (negsuc n) = 2 ^ 8 - 1 - n % 2 ^ 8

abbrev pub of_bits : ℕ → ℤ
of_bits b = if ltb b (2 ^ 7) then pos b else negsuc (2 ^ 8 - 1 - b)

-- `a - b` of int8, which wraps around.
abbrev pub sub_int8 : ℤ → ℤ → ℤ
sub_int8 a b = of_bits ((bits a + (2 ^ 8 - bits b)) % 2 ^ 8)

-- `strconv.Itoa`
unfoldable pub itoa : ℤ → String
unfolding decimal
itoa (pos n) = decimal n
itoa (negsuc n) = concat ("-" ∷ decimal (suc n) ∷ [])

-- The text that an encoder appends. `name` is zap's own, `Level.String` or `Level.CapitalString`.
unfoldable pub level_text : String → (Level → String) → Level → String
unfolding itoa
level_text below name level =
    if int_lt level debug_level
    then (let l = sub_int8 debug_level level in
        if int_lt (pos 1) l then concat (below ∷ itoa l ∷ []) else below)
    else name level

-- `encoder.AppendString` adds to the texts that the encoder has.
unfoldable pub lowercase_level_encoder : (Level → String) → Level → List String → List String
unfolding level_text
lowercase_level_encoder string level texts = texts ++ level_text "trace" string level ∷ []

unfoldable pub capital_level_encoder : (Level → String) → Level → List String → List String
unfolding level_text
capital_level_encoder capital_string level texts =
    texts ++ level_text "TRACE" capital_string level ∷ []

-- `zapcore.EncoderConfig` with the one field that is set here, and `EncoderLevelConfig`; `zap.Options`
-- is a list of options, to which `EncoderLevel` appends.
pub record EncoderConfig : Type 0 where
  pub encode_level : Level → List String → List String

abbrev pub encoder_level_config :
    (Level → List String → List String) → EncoderConfig → EncoderConfig
encoder_level_config enc c = record c { encode_level = enc }

abbrev pub encoder_level :
    (Level → List String → List String)
    → List (EncoderConfig → EncoderConfig)
    → List (EncoderConfig → EncoderConfig)
encoder_level enc options = options ++ encoder_level_config enc ∷ []
