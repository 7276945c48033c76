-- ===== src/Framesd/Watching.antt =====
-- cmd/framesd/framesd.go: what main starts, and when its watch ends.
use frames.Base.{ℕ, zero, suc, ◌≡◌, refl, none, Error, replicate, arith}
use frames.Config.{Config}
use frames.Server.{Server, running_state}
use frames.Server.Starting.{deaf}
use frames.Server as Start
use frames.Framesd.{watch}

-- A watch over an HTTP server whose error was lost never ends while the gRPC server runs.
watch-deaf :
    (e : Error) (g : Server) (seconds : ℕ)
    → g.base.state ≡ running_state
    → watch (replicate seconds (deaf e, g)) ≡ none
unfolding watch
watch-deaf e g zero r = refl
watch-deaf e g (suc n) r = ground (arith, r, watch-deaf e g n r)
