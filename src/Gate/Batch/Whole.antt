-- ===== src/Gate/Batch/Whole.antt =====
-- `evaluateBatch` of src/gate.ts from the request to the store.
use paygate_mcp.Gate.{Gate}
