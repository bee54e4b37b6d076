-- ===== src/Logging/Loggers.antt =====
-- `Logger`, and how one is made.
use konfirm.Base.{ℕ, String, List}

-- The package logr, as far as it is used: a logger of type `L`, the values of type `V` given to it, a
-- context of type `C` that may carry one, and a log of type `W` that `Info` writes to.
pub record Logr (L V C W : Type 0) : Type 0 where
  pub v : L → ℕ → L
  pub with_values : L → List V → L
  pub with_name : L → String → L
  pub from_context_or_discard : C → L
  pub info : L → String → List V → W → W

pub record Logger (L : Type 0) : Type 0 where
  pub logger : L
  pub debug : L
  pub trace : L

module _ {L V C W : Type 0} (logr : Logr L V C W) where
  -- `NewLogger`
  abbrev pub new_logger : L → Logger L
  new_logger from = record { logger = from; debug = logr.v from 1; trace = logr.v from 2 }

  -- `Logger.Debug` and `Logger.Trace`
  abbrev pub debug : Logger L → String → List V → W → W
  debug l message values = logr.info l.debug message values

  abbrev pub trace : Logger L → String → List V → W → W
  trace l message values = logr.info l.trace message values

  -- `Logger.WithValues`, of the embedded logger.
  abbrev pub with_values : Logger L → List V → Logger L
  with_values l values = new_logger (logr.with_values l.logger values)

  -- `FromContext` and `FromContextWithName`
  abbrev pub from_context : C → List V → Logger L
  from_context ctx values = new_logger (logr.with_values (logr.from_context_or_discard ctx) values)

  abbrev pub from_context_with_name : C → String → List V → Logger L
  from_context_with_name ctx name values =
      new_logger (logr.with_values (logr.with_name (logr.from_context_or_discard ctx) name) values)
