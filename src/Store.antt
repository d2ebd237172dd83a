-- ===== src/Store.antt =====
-- internal/store/request.go: the methods of Store on forwarded_request.
pub mod Effects
pub mod Rules
pub mod Untouched
pub mod Stats
use continuum_plugin_bookwar.Prelude.{
  ℕ, String, Bool, false, not, ◌&&◌, Option, none, some, List, [], ◌∷◌, ◌++◌, map, Bytes, codes,
  ◌==◌, eqb, take, length, if◌then◌else◌,
}
use mathlib.Core.Option.{get_or}
use continuum_plugin_bookwar.Result.{Result, ok, err}
use continuum_plugin_bookwar.Table.{
  Time, Row, Table, find, upsert, polled, update_where, is_terminal, select_non_terminal,
  count_where, polled_at,
}
use continuum_plugin_bookwar.World.{
  Env, World, Act, pure, ◌>>=◌, on_result, on_error, time_now, exec, query, row_reads,
}

-- In the Go struct "" and the zero time stand for what the table has as NULL.
pub record ForwardedRequest : Type 0 where
  pub request_id : String
  pub external_id : String
  pub status : String
  pub last_polled : Time
  pub error_text : Bytes
  pub auto_monitor : Bool
  pub created_at : Time
  pub updated_at : Time

pub record RequestStats : Type 0 where
  pub total : ℕ
  pub active : ℕ
  pub failed : ℕ
  pub imported : ℕ
  pub with_errors : ℕ
  pub unsubmitted : ℕ

-- `if s != "" { p = &s }`
abbrev pub text_ptr : String → Option String
text_ptr s = if s == "" then none else some s

abbrev pub bytes_ptr : Bytes → Option Bytes
bytes_ptr [] = none
bytes_ptr (c ∷ s) = some (c ∷ s)

abbrev pub time_ptr : Time → Option Time
time_ptr t = if eqb t 0 then none else some t

-- fmt.Errorf("...: %w", err)
unfoldable pub wrap {ℓ} : {A : Type ℓ} → String → Result A → Result A
wrap prefix (ok a) = ok a
wrap prefix (err e) = err (codes prefix ++ e)

-- The VALUES of the INSERT; created_at takes its default, now().
unfoldable pub inserted : ForwardedRequest → Time → Time → Row
inserted r updated created = record {
  request_id = r.request_id;
  external_id = text_ptr r.external_id;
  status = r.status;
  last_polled = time_ptr r.last_polled;
  error_text = bytes_ptr r.error_text;
  auto_monitor = r.auto_monitor;
  created_at = created;
  updated_at = updated;
}

-- a column list as the SELECTs read it, NULL by COALESCE
unfoldable pub scanned : Row → ForwardedRequest
scanned r = record {
  request_id = r.request_id;
  external_id = get_or r.external_id "";
  status = r.status;
  last_polled = polled_at r;
  error_text = get_or r.error_text [];
  auto_monitor = r.auto_monitor;
  created_at = r.created_at;
  updated_at = r.updated_at;
}

-- GetForwardedRequest tells a missing row, ErrNotFound, from other errors.
pub data Fetched : Type 0 where
  found : ForwardedRequest → Fetched
  not_found : Fetched
  failed : Bytes → Fetched

-- COALESCE(error_text,'') <> ''
abbrev pub has_error : Row → Bool
has_error r = not (eqb (length (get_or r.error_text [])) 0)

unfoldable pub count_all : Table → RequestStats
count_all t = record {
  total = length t;
  active = count_where (λ r. not (is_terminal r.status)) t;
  failed = count_where (λ r. r.status == "failed") t;
  imported = count_where (λ r. r.status == "imported") t;
  with_errors = count_where has_error t;
  unsubmitted = count_where (λ r. get_or r.external_id "" == "" && not (is_terminal r.status)) t;
}

module _ (env : Env) where
  -- the statement of UpsertForwardedRequest
  unfoldable pub exec_upsert : ForwardedRequest → Time → Act (Result (Unit {0}))
  unfolding inserted wrap
  exec_upsert r updated = do
    answer ← exec env (λ created. upsert (inserted r updated created))
    pure (wrap "upsert forwarded_request: " answer)

  unfoldable pub upsert_forwarded_request : ForwardedRequest → Act (Result (Unit {0}))
  unfolding exec_upsert
  upsert_forwarded_request r =
      if r.request_id == "" then pure (err (codes "request_id required")) else do
        updated ← if eqb r.updated_at 0 then time_now env else pure r.updated_at
        exec_upsert r updated

  -- the statement of MarkPolled
  unfoldable pub exec_polled : String → Option String → String → Time → Act (Result (Unit {0}))
  unfolding wrap
  exec_polled request_id external_id status stamp = do
    answer ← exec env (λ _. update_where request_id (polled external_id status stamp))
    pure (wrap "mark polled: " answer)

  unfoldable pub mark_polled : String → String → String → Time → Act (Result (Unit {0}))
  unfolding exec_polled
  mark_polled request_id external_id status when =
      if request_id == "" then pure (err (codes "request_id required")) else do
        stamp ← if eqb when 0 then time_now env else pure when
        exec_polled request_id (text_ptr external_id) status stamp

  fetched : Result (Option Row) → Fetched
  fetched (ok none) = not_found
  fetched (ok (some r)) = found (scanned r)
  fetched (err e) = failed (codes "get forwarded_request: " ++ e)

  unfoldable pub get_forwarded_request : String → Act Fetched
  unfolding scanned fetched
  get_forwarded_request request_id = do answer ← query env (find request_id); pure (fetched answer)

  -- rows.Err() is not asked: when the connection breaks, the rows that arrived are the result
  unfoldable pub arrived : Option ℕ → Table → Table
  arrived none rows = rows
  arrived (some n) rows = take n rows

  -- the loop over the rows, which ends at the first that Scan refuses
  unfoldable pub scan_rows : (Row → Option Bytes) → Table → Result (List ForwardedRequest)
  unfolding scanned
  scan_rows bad [] = ok []
  scan_rows bad (r ∷ rs) =
      let rest = scan_rows bad rs in
      on_error (bad r) (λ e. err (codes "scan: " ++ e))
        (on_result rest (λ e. err e) (λ out. ok (scanned r ∷ out)))

  unfoldable pub list_non_terminal : ℕ → Act (Result (List ForwardedRequest))
  unfolding wrap arrived scan_rows
  list_non_terminal limit = do
    answer ← query env (select_non_terminal env.collate (if eqb limit 0 then 100 else limit))
    reads ← row_reads env
    on_result (wrap "list non-terminal: " answer) (λ e. pure (err e))
        (λ rows. pure (scan_rows reads.1 (arrived reads.0 rows)))

  unfoldable pub request_stats : Act (Result RequestStats)
  unfolding wrap count_all
  request_stats = do answer ← query env count_all; pure (wrap "request stats: " answer)
