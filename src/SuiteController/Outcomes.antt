-- ===== src/SuiteController/Outcomes.antt =====
-- How `Reconcile` of a TestSuite ends.
