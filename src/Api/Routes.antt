-- ===== src/Api/Routes.antt =====
-- The table of routes of internal/api/api.go. ServeMux is package net/http's: it takes each pattern
-- once, and panics where one is registered again.
use cpu_process_exporter.Base.{ℕ, ◌*◌, List, [], ◌∷◌, Bytes, codes, Option, none, some}
use cpu_process_exporter.Config.{ServerConfig}
use cpu_process_exporter.Config.Defaults.{second}
use cpu_process_exporter.Float.{Float64}
use cpu_process_exporter.Api.Handlers.{
  Std, Server, Response, handle_groups, handle_config, handle_stats, handle_livez, handle_readyz,
  handle_index,
}

pub data Route : Type 0 where
  metrics groups config stats livez readyz index : Route

-- The calls of Handle and HandleFunc, in order.
unfoldable pub routes : ServerConfig → List (Bytes × Route)
routes cfg =
    (cfg.metrics_path, metrics)
    ∷ (codes "/groups", groups)
    ∷ (codes "/config", config)
    ∷ (codes "/stats", stats)
    ∷ (codes "/livez", livez)
    ∷ (codes "/readyz", readyz)
    ∷ (codes "/", index)
    ∷ []

-- The fields of the http.Server that New makes; the timeout is in nanoseconds.
pub record HttpServer : Type 0 where
  pub addr : Bytes
  pub handler : List (Bytes × Route)
  pub read_header_timeout : ℕ

unfoldable pub new : ServerConfig → HttpServer
unfolding routes
new cfg = record { addr = cfg.listen; handler = routes cfg; read_header_timeout = 10 * second }

-- What the handler of a route answers; that of the metrics is the client library's.
unfoldable pub answer :
    {F : Type 0} → Float64 F → Std F → ℕ → Bytes → Server F → Route → Option (Response F)
unfolding handle_groups handle_config handle_stats handle_livez handle_readyz handle_index
answer fl std now by s metrics = none
answer fl std now by s groups = some (handle_groups fl std by s)
answer fl std now by s config = some (handle_config s)
answer fl std now by s stats = some (handle_stats std s)
answer fl std now by s livez = some (handle_livez s)
answer fl std now by s readyz = some (handle_readyz s)
answer fl std now by s index = some (handle_index std now s)

-- How ListenAndServe ends, and what wakes the select of Run.
pub data ServeEnd : Type 0 where
  server_closed : ServeEnd
  failed : Bytes → ServeEnd

pub data Wake : Type 0 where
  serve_ended : ServeEnd → Wake
  context_done : Wake

-- The error that the goroutine of Run sends.
unfoldable pub sent : ServeEnd → Option Bytes
sent server_closed = none
sent (failed e) = some e

unfoldable pub run : Wake → Option Bytes
unfolding sent
run (serve_ended end) = sent end
run context_done = none
