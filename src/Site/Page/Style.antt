-- ===== src/Site/Page/Style.antt =====
-- adminThemeCSS of internal/server/server.go.
use continuum_plugin_bookwar.Prelude.{String, List, [], ◌∷◌}

-- the style sheet
abbrev pub admin_theme_css : List String
admin_theme_css =
    ":root{--bg:#141417;--fg:#e8e8ec;--muted:#a1a1aa;--link:#93c5fd;--panel:#1c1c20;--borde"
    ∷ "r:#28282e;--ok:#22c55e;--bad:#fb7185;--input:#101014}[data-theme=\"cinema-light\"]{--b"
    ∷ "g:#f7f3ed;--fg:#201c18;--muted:#756b60;--link:#9a3412;--panel:#fffaf3;--border:#ded1c0"
    ∷ ";--input:#fff}[data-theme=\"cobalt-studio\"]{--bg:#101623;--fg:#eef4ff;--muted:#afc2e2"
    ∷ ";--link:#60a5fa;--panel:#172033;--border:#2d3f61;--input:#0d1422}[data-theme=\"oxblood"
    ∷ "-noir\"]{--bg:#170b10;--fg:#fff1f4;--muted:#f0a6b7;--link:#fb7185;--panel:#241018;--bo"
    ∷ "rder:#4a2230;--input:#12070b}[data-theme=\"evergreen-studio\"]{--bg:#0d1712;--fg:#ecfd"
    ∷ "f3;--muted:#9bd6b4;--link:#6ee7b7;--panel:#14241b;--border:#2b4b39;--input:#08110d}*{b"
    ∷ "ox-sizing:border-box}body{font-family:system-ui,sans-serif;margin:0;line-height:1.5;ba"
    ∷ "ckground:var(--bg);color:var(--fg)}.shell{max-width:1120px;margin:0 auto;padding:28px}"
    ∷ ".back{display:inline-flex;margin-bottom:12px;color:var(--link);text-decoration:none}.e"
    ∷ "yebrow{color:var(--muted);text-transform:uppercase;font-size:12px;letter-spacing:.08em"
    ∷ "}h1{margin:.2rem 0}h2{font-size:16px;margin:0}.tabs{display:flex;gap:8px;flex-wrap:wra"
    ∷ "p;margin:18px 0}.tab{background:transparent;color:var(--fg);border:1px solid var(--bor"
    ∷ "der)}.tab.active{background:var(--link);color:#08111f}.tab-panel{display:none}.tab-pan"
    ∷ "el.active{display:block}.grid,.triage-grid,.cards,.info-grid,.result-grid{display:grid"
    ∷ ";grid-template-columns:repeat(auto-fit,minmax(240px,1fr));gap:16px}.panel{border:1px s"
    ∷ "olid var(--border);background:var(--panel);border-radius:8px;padding:16px;margin-top:1"
    ∷ "6px}.panel-head{display:flex;align-items:flex-start;justify-content:space-between;gap:"
    ∷ "16px}.triage-grid h3{font-size:14px;margin:.2rem 0}.triage-grid p{color:var(--muted);m"
    ∷ "argin:.25rem 0}.browser-shell{display:grid;gap:10px}.row{display:grid;grid-template-co"
    ∷ "lumns:minmax(0,1fr) auto;gap:8px}.preview-grid{display:grid;grid-template-columns:repe"
    ∷ "at(2,minmax(0,1fr));gap:8px}.config-grid{display:grid;grid-template-columns:repeat(2,m"
    ∷ "inmax(0,1fr));gap:10px;margin-top:12px}.config-grid label{display:grid;gap:6px;color:v"
    ∷ "ar(--muted);font-size:13px}.config-grid .span-all{grid-column:1/-1}.check{display:flex"
    ∷ "!important;align-items:center;gap:8px;color:var(--muted)}select,input{min-width:0;back"
    ∷ "ground:var(--input);color:var(--fg);border:1px solid var(--border);border-radius:6px;p"
    ∷ "adding:9px}input[type=\"checkbox\"]{width:auto}button{background:var(--link);border:0;"
    ∷ "border-radius:6px;padding:9px 12px;color:#08111f;font-weight:700;cursor:pointer}.badge"
    ∷ "{display:inline-block;border:1px solid var(--border);border-radius:999px;padding:2px 8"
    ∷ "px;margin-right:6px;font-size:12px;white-space:nowrap}.ok{color:var(--ok)}.bad{color:v"
    ∷ "ar(--bad)}.muted{color:var(--muted)}.diag{display:grid;gap:4px;border:1px solid var(--"
    ∷ "border);border-radius:6px;background:var(--input);padding:12px}.diag strong{color:var("
    ∷ "--fg)}.diag span{color:var(--muted);font-size:12px}.result-card{display:grid;grid-temp"
    ∷ "late-columns:72px minmax(0,1fr);gap:12px;border:1px solid var(--border);border-radius:"
    ∷ "8px;background:var(--input);padding:12px}.result-card img,.cover-fallback{width:72px;h"
    ∷ "eight:96px;border-radius:6px;object-fit:cover;background:#0b0f17}.cover-fallback{displ"
    ∷ "ay:grid;place-items:center;color:var(--muted);font-size:12px;font-weight:700;letter-sp"
    ∷ "acing:.06em}.result-body{display:grid;gap:6px;min-width:0}.result-body strong{font-siz"
    ∷ "e:14px}.meta-line{color:var(--muted);font-size:12px}.chip-row{display:flex;flex-wrap:w"
    ∷ "rap;gap:6px}.chip{border:1px solid var(--border);border-radius:999px;padding:3px 8px;f"
    ∷ "ont-size:12px;color:var(--muted)}.empty-state{border:1px dashed var(--border);border-r"
    ∷ "adius:6px;padding:12px;background:var(--input);color:var(--muted);font-size:13px}code{"
    ∷ "color:var(--link)}.status-strip{display:grid;grid-template-columns:repeat(auto-fit,min"
    ∷ "max(160px,1fr));gap:8px;margin-top:14px}.strip-cell{display:flex;align-items:center;ga"
    ∷ "p:8px;border:1px solid var(--border);background:var(--panel);border-radius:6px;padding"
    ∷ ":8px 10px;font-size:12px}.strip-dot{flex:0 0 8px;width:8px;height:8px;border-radius:99"
    ∷ "9px;background:var(--muted)}.strip-cell.ok .strip-dot{background:var(--ok)}.strip-cell"
    ∷ ".bad .strip-dot{background:var(--bad)}.strip-cell strong{font-weight:600;color:var(--f"
    ∷ "g)}.strip-cell span{color:var(--muted);margin-left:auto;font-size:11px}@media(max-widt"
    ∷ "h:760px){.row,.preview-grid,.panel-head,.config-grid,.result-card{grid-template-column"
    ∷ "s:1fr;display:grid}.result-card img,.cover-fallback{width:100%;max-width:120px}}" ∷ []
