-- ===== src/World.antt =====
-- What the plugin acts on, and what it cannot decide. `World` is the state that its parts share:
-- the table, the events handed to the publisher and the HTTP requests sent upstream. `Env` answers
-- each interaction, by its turn: the clock, the database, the context's deadline and the upstream
-- service. An action of the plugin is a function `Act A`.
pub mod Rules
use continuum_plugin_bookwar.Prelude.{
  ℕ, suc, String, Bool, Option, none, some, List, [], ◌∷◌, ◌++◌, Bytes,
}
use continuum_plugin_bookwar.Result.{Result, ok, err}
use continuum_plugin_bookwar.Table.{Row, Table, Time}

-- What the database answers to a statement: it was run; it was not, and an error is returned; it
-- was run, and an error is returned all the same, as when the connection drops after the commit.
pub data Outcome : Type 0 where
  done : Outcome
  refused : Bytes → Outcome
  unconfirmed : Bytes → Outcome

-- A request of the HTTP client of internal/bookwarehouse.
pub record Request : Type 0 where
  pub method : String
  pub url : Bytes
  pub api_key : String
  pub body : Bytes
  -- the header Range, "" when it is not sent
  pub range_header : String

-- What `http.Client.Do` and reading the body give.
pub data Reply : Type 0 where
  unreachable : Bytes → Reply
  unreadable : ℕ → Bytes → Reply
  answered : ℕ → Bytes → Reply

-- bookwarehouse.MonitoringRequest and MonitoringResponse
pub record MonitoringRequest : Type 0 where
  pub title : String
  pub authors : List String
  pub isbn : String
  pub format_pref : String
  pub quality_profile : String
  pub auto_monitor : Bool

pub record MonitoringResponse : Type 0 where
  pub id : String
  pub status : String

-- A field of an event's payload: text that the plugin passes on, or an error's text.
pub data Field : Type 0 where
  text : String → Field
  reason : Bytes → Field

-- One call of `Publish`.
pub record Message : Type 0 where
  pub name : String
  pub payload : List (String × Field)

pub record Env : Type 0 where
  -- time.Now(), and now() in the database
  pub now : ℕ → Time
  pub outcome : ℕ → Outcome
  -- rows.Next() stops after so many rows when the connection breaks
  pub rows_read : ℕ → Option ℕ
  -- rows.Scan refuses a row
  pub bad_row : ℕ → Row → Option Bytes
  -- the database's collation of request ids
  pub collate : String → String → Bool
  -- ctx.Err() != nil
  pub cancelled : ℕ → Bool
  -- http.NewRequestWithContext refuses a URL that does not parse
  pub bad_url : Bytes → Option Bytes
  pub reply : ℕ → Request → Reply
  -- resp.Header.Get of that answer
  pub header : ℕ → String → String
  -- json.Marshal and json.Unmarshal at the two monitoring types
  pub marshal : MonitoringRequest → Result Bytes
  pub unmarshal : Bytes → Result MonitoringResponse

pub record World : Type 0 where
  pub table : Table
  pub published : List Message
  pub sent : List Request
  pub turn : ℕ

abbrev pub Act : Type 0 → Type 0
Act A = World → A × World

abbrev pub pure : {A : Type 0} → A → Act A
pure a w = (a, w)

infixl 5 ◌>>=◌ ◌>>◌
unfoldable pub ◌>>=◌ : {A B : Type 0} → Act A → (A → Act B) → Act B
◌>>=◌ m f w = let (a, w') = m w in f a w'

abbrev pub ◌>>◌ : {A B : Type 0} → Act A → Act B → Act B
m >> k = m >>= λ _. k

-- `if err != nil { ... }` and what follows it
abbrev pub on_result {ℓ κ} : {A : Type ℓ} {B : Type κ} → Result A → (Bytes → B) → (A → B) → B
on_result (ok a) failed succeeded = succeeded a
on_result (err e) failed succeeded = failed e

-- a nil error is `none`
abbrev pub on_error {ℓ} : {B : Type ℓ} → Option Bytes → (Bytes → B) → B → B
on_error none failed otherwise = otherwise
on_error (some e) failed otherwise = failed e

-- time.Now()
unfoldable pub time_now : Env → Act Time
time_now env w = (env.now w.turn, record w { turn = suc w.turn })

-- ctx.Err() != nil
unfoldable pub is_cancelled : Env → Act Bool
is_cancelled env w = (env.cancelled w.turn, record w { turn = suc w.turn })

-- how a statement ends, with the world as it was before and as the statement leaves it
unfoldable pub settle : Outcome → World → World → Result (Unit {0}) × World
settle done before after = (ok tt, after)
settle (refused e) before after = (err e, before)
settle (unconfirmed e) before after = (err e, after)

-- pool.Exec with a statement that changes the table; it may read the database's clock
unfoldable pub exec : Env → (Time → Table → Table) → Act (Result (Unit {0}))
unfolding settle
exec env f w =
    let before = record w { turn = suc w.turn } in
    settle (env.outcome w.turn) before (record before { table = f (env.now w.turn) w.table })

unfoldable pub query_result : {A : Type 0} → Outcome → A → Result A
query_result done a = ok a
query_result (refused e) a = err e
query_result (unconfirmed e) a = err e

-- a query, which changes nothing
unfoldable pub query : {A : Type 0} → Env → (Table → A) → Act (Result A)
unfolding query_result
query env f w = (query_result (env.outcome w.turn) (f w.table), record w { turn = suc w.turn })

-- how many rows of a result set arrive, and which of them cannot be scanned
unfoldable pub row_reads : Env → Act (Option ℕ × (Row → Option Bytes))
row_reads env w = ((env.rows_read w.turn, env.bad_row w.turn), record w { turn = suc w.turn })

unfoldable pub send : Env → Request → Act Reply
send env r w = (env.reply w.turn r, record w { sent = w.sent ++ r ∷ []; turn = suc w.turn })

-- Publisher.Publish
unfoldable pub publish : Message → Act (Unit {0})
publish m w = (tt, record w { published = w.published ++ m ∷ [] })
