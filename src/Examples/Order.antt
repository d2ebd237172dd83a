-- ===== src/Examples/Order.antt =====
-- The theorem on the order of the rows at concrete data.
use Prim.Native.Char.{code}
use mathlib.Core.Path.{subst}
use package.text.Mathlib.TextEquality.{Char-path}
use continuum_plugin_bookwar.Prelude.{
  ◌≢◌, ◌≡◌, refl, String, Bool, true, false, ◌&&◌, ◌||◌, ltb, eqb, some, none, List, [], ◌∷◌, arith,
  ◌==◌, eq_iff, Bool-cases, inl, inr,
}
use continuum_plugin_bookwar.Runtime.{text}
use continuum_plugin_bookwar.Table.{Row, Table, find}
use continuum_plugin_bookwar.Table.Relation.{
  Relation, relation_of, put_row, mark_row, put_row-mark_row_comm,
}
use continuum_plugin_bookwar.Table.Keys.{NodupKeys}
use continuum_plugin_bookwar.Table.Rows.{SameRows}
use continuum_plugin_bookwar.World.{Env}
use continuum_plugin_bookwar.Steps.Alike.{IsLinear}
use continuum_plugin_bookwar.Plugin.{
  Plugin, plugin_id, HostCall, configures, delivers, schedules, requests, serve_all,
}
use continuum_plugin_bookwar.Plugin.Alike.{AlikePlugins, answer_all}
use continuum_plugin_bookwar.Plugin.Alike.Runs.{serve_all-AlikePlugins}
use continuum_plugin_bookwar.Examples.Data.{calm, event_to, row}
use continuum_plugin_bookwar.Examples.Books.{lib}
use continuum_plugin_bookwar.Examples.Catalog.{jwt}
use continuum_plugin_bookwar.Examples.Config.{backend}
use continuum_plugin_bookwar.Examples.Site.{pools, migrator, http, web, call}
use continuum_plugin_bookwar.Examples.Plugin.{plugin, https_url}

-- the order of the dictionary
abbrev le_text : String → String → Bool
le_text String.[] t = true
le_text (String.◌∷◌ c s) String.[] = false
le_text (String.◌∷◌ c s) (String.◌∷◌ d t) =
    let rest = le_text s t in ltb (code c) (code d) || eqb (code c) (code d) && rest

le_text-total : (a b : String) → le_text a b ≡ false → le_text b a ≡ true
le_text-total String.[] b h = cc
le_text-total (String.◌∷◌ c s) String.[] h = refl
le_text-total (String.◌∷◌ c s) (String.◌∷◌ d t) h = ground (arith, le_text-total s t)

le_text_trans : (a b c : String) → le_text a b ≡ true → le_text b c ≡ true → le_text a c ≡ true
le_text_trans String.[] b c h k = refl
le_text_trans (String.◌∷◌ x s) String.[] c h k = cc
le_text_trans (String.◌∷◌ x s) (String.◌∷◌ y t) String.[] h k = cc
le_text_trans (String.◌∷◌ x s) (String.◌∷◌ y t) (String.◌∷◌ z u) h k =
    ground (arith, le_text_trans s t u)

le_text-antisym : (a b : String) → le_text a b ≡ true → le_text b a ≡ true → a ≡ b
le_text-antisym String.[] String.[] h k = refl
le_text-antisym String.[] (String.◌∷◌ d t) h k = cc
le_text-antisym (String.◌∷◌ c s) String.[] h k = cc
le_text-antisym (String.◌∷◌ c s) (String.◌∷◌ d t) h k =
    ground (arith, Char-path c d, le_text-antisym s t)

abbrev sorted : Env
sorted = record calm { collate = le_text }

le_text-IsLinear : IsLinear le_text
le_text-IsLinear = record {
  order = record { total = le_text-total; trans = le_text_trans };
  antisym = le_text-antisym;
}

abbrev rows : Table
rows = row "r1" (some "m1") "acknowledged" ∷ row "r2" none "submitted" ∷ []

abbrev there : Table
there = row "r2" none "submitted" ∷ row "r1" (some "m1") "acknowledged" ∷ []

same_rows : SameRows rows there
unfolding find
same_rows = record {
  left = (refl, (refl, tt));
  right = (refl, (refl, tt));
  agree = λ k. elim (Bool-cases ("r1" == k)) [
    | inl same ↦ subst (λ j. find j rows ≡ find j there) ((eq_iff "r1" k).0 same) refl
    | inr differs ↦ rw differs refl
  ];
}

abbrev calls : List HostCall
calls =
    configures ((record { key = "database_url"; value = some (text "db") }) ∷ [])
    ∷ delivers sorted (event_to plugin_id)
    ∷ schedules sorted false "reconciler"
    ∷ requests sorted (call "")
    ∷ []

abbrev one : Plugin
one = record plugin { tables = λ dsn. rows }

abbrev other : Plugin
other = record plugin { tables = λ dsn. there }

serve_all-AlikePlugins_example :
    (answer_all lib jwt backend web http pools migrator https_url one calls
      ≡ answer_all lib jwt backend web http pools migrator https_url other calls)
    × AlikePlugins
        (serve_all lib jwt backend web http pools migrator https_url one calls)
        (serve_all lib jwt backend web http pools migrator https_url other calls)
serve_all-AlikePlugins_example =
    serve_all-AlikePlugins lib jwt backend web http pools migrator https_url one other
      (record {
        runtime = refl;
        process = refl;
        tables = λ dsn. same_rows;
        published = refl;
        sent = refl;
        turn = refl;
      })
      calls (tt, (le_text-IsLinear, (le_text-IsLinear, (le_text-IsLinear, tt))))

distinct_ids : ◌≢◌ {A = String} "r1" "r2"
distinct_ids e = cc ((eq_iff "r1" "r2").1 e)

abbrev r1 : Row
r1 = row "r1" (some "m2") "acknowledged"

abbrev r2 : Row
r2 = row "r2" none "failed"

rows_keyed : NodupKeys rows
unfolding find
rows_keyed = (refl, (refl, tt))

abbrev stored : Relation
stored = relation_of (rows, rows_keyed)

put_row-mark_row_comm_example :
    (put_row r1 (put_row r2 stored) ≡ put_row r2 (put_row r1 stored))
    × (put_row r1 (mark_row "r2" none "found" 7 stored)
        ≡ mark_row "r2" none "found" 7 (put_row r1 stored))
    × (put_row r1 (put_row r1 stored) ≡ put_row r1 stored)
    × (mark_row "r2" none "found" 7 (mark_row "r2" none "found" 7 stored)
        ≡ mark_row "r2" none "found" 7 stored)
put_row-mark_row_comm_example = put_row-mark_row_comm r1 r2 none "found" 7 stored distinct_ids
