-- ===== src/Examples/Data.antt =====
-- The environment, the payload and the rows that the examples share.
use Prim.Native.String.{len}
use continuum_plugin_bookwar.Prelude.{◌+◌, String, true, false, Option, none, some, [], codes, leb}
use continuum_plugin_bookwar.Result.{ok}
use continuum_plugin_bookwar.Table.{Row, Table}
use continuum_plugin_bookwar.World.{Env, World, done, answered}
use continuum_plugin_bookwar.Upstream.{Client}
use continuum_plugin_bookwar.Consumer
use continuum_plugin_bookwar.Consumer.{EventRequest, Fields, end, field, str}
use continuum_plugin_bookwar.Reconciler

-- every statement runs, and the upstream service knows the request "m1", which is downloading
abbrev pub calm : Env
calm = record {
  now = λ n. n + 1;
  outcome = λ _. done;
  rows_read = λ _. none;
  bad_row = λ _ _. none;
  collate = λ a b. leb (len a) (len b);
  cancelled = λ _. false;
  bad_url = λ _. none;
  reply = λ _ _. answered 200 (codes "{}");
  header = λ _ _. "";
  marshal = λ _. ok [];
  unmarshal = λ _. ok (record { id = "m1"; status = "grabbing" });
}

abbrev pub client : Client
client = record { base_url = codes "http://bw"; api_key = "key"; default_cover_size = "medium" }

abbrev pub deps : Consumer.Deps
deps = record {
  store = true;
  publisher = true;
  bw = some client;
  plugin_id = "silo.bookwarehouse-ebook";
}

abbrev pub poller : Reconciler.Deps
poller = record { bw = client; plugin_id = "silo.bookwarehouse-ebook" }

abbrev pub payload_to : String → Fields
payload_to target =
    field "target_plugin_id" (str target)
      (field "request_id" (str "r1") (field "title" (str "Emma") end))

abbrev pub event_to : String → EventRequest
event_to target = record {
  event_name = "plugin.silo.ebooks.request_submitted";
  payload = some (payload_to target);
}

abbrev pub row : String → Option String → String → Row
row id external_id status = record {
  request_id = id;
  external_id = external_id;
  status = status;
  last_polled = none;
  error_text = none;
  auto_monitor = false;
  created_at = 1;
  updated_at = 1;
}

abbrev pub world : Table → World
world t = record { table = t; published = []; sent = []; turn = 0 }
