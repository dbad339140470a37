-- ===== src/Args/Tests.antt =====
-- The theorems on command lines at concrete inputs.
