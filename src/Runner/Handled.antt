-- ===== src/Runner/Handled.antt =====
-- `RunnerService::handle` of crates/c6-runner/src/lib.rs over the envelopes about one run: the one
-- that runs it, the later ones, and the first one sent again.
use cresix.Base.Text.{Text, text_key}
use cresix.Runner.Authenticator.{Authenticator}
