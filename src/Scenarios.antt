-- ===== src/Scenarios.antt =====
-- Concrete clusters, on which the theorems are applied and the definitions are run.
mod Sample
mod TestCases
mod HelperCases
mod RunCases
mod HelmCases
mod SuiteCases
mod SystemCases
mod ProgramCases
