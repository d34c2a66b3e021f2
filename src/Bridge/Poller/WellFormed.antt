-- ===== src/Bridge/Poller/WellFormed.antt =====
-- What every stored entry is like after a pass: `RunOnce` in
-- services/scim-bridge/internal/bridge/poller.go.
use mas_iam_operator.Bridge.Executor.Steps.{Executor}
