-- ===== src/Upstream/Requests.antt =====
-- What the results of the client's calls are worth.
use continuum_plugin_bookwar.Prelude.{◌≡◌, ◌≢◌, Bytes, eq_iff, arith}
use continuum_plugin_bookwar.Result.{ok}
use continuum_plugin_bookwar.World.{Env, World, MonitoringRequest, MonitoringResponse, ◌>>=◌}
use continuum_plugin_bookwar.Upstream.{Client, read_added, add_monitoring}

module _ (env : Env) (c : Client) where
  read_added-id :
      (body : Bytes) (out : MonitoringResponse) → read_added env c body ≡ ok out → out.id ≢ ""
  unfolding read_added
  read_added-id body out h = ground (arith, eq_iff out.id "")

  -- An accepted monitoring request has an id.
  pub add_monitoring-id :
      (r : MonitoringRequest) (w : World) (out : MonitoringResponse)
      → (add_monitoring env c r w).0 ≡ ok out
      → out.id ≢ ""
  unfolding add_monitoring ◌>>=◌
  add_monitoring-id r w out h = grind (arith, read_added-id)
