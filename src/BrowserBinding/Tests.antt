-- ===== src/BrowserBinding/Tests.antt =====
-- Inputs at which the theorems on the names of the bindings apply.
