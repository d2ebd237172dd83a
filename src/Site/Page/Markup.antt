-- ===== src/Site/Page/Markup.antt =====
-- The elements of the admin page, internal/server/server.go.
use continuum_plugin_bookwar.Prelude.{String, List, [], ◌∷◌}

-- up to the theme
abbrev pub before_theme : List String
before_theme = "<!doctype html>\n" ∷ "<html lang=\"en\" data-theme=\"" ∷ []

-- from the theme to the style sheet
abbrev pub before_style : List String
before_style =
    "\">\n"
    ∷ "<head><meta charset=\"utf-8\"><meta name=\"viewport\" content=\"width=device-width,ini"
    ∷ "tial-scale=1\"><title>BookWarehouse Ebook</title><style>" ∷ []

-- from the style sheet to the script
abbrev pub markup : List String
markup =
    "</style></head>\n" ∷ "<body>\n" ∷ "<main class=\"shell\">\n"
    ∷ "<a class=\"back\" href=\"/admin/plugins\">&larr; Plugins</a>\n"
    ∷ "<header><p class=\"eyebrow\">Ebook backend</p><h1>BookWarehouse Ebook</h1><p>Calibre-b"
    ∷ "acked catalog, file delivery, external search, and request monitoring.</p></header>\n"
    ∷ "<div id=\"status-strip\" class=\"status-strip\" aria-label=\"Plugin health\"><div clas"
    ∷ "s=\"strip-cell\"><span class=\"strip-dot\"></span><strong>Loading…</strong></div></div"
    ∷ ">\n" ∷ "<nav class=\"tabs\" aria-label=\"BookWarehouse Ebook admin sections\">\n"
    ∷ "<button class=\"tab active\" data-tab-target=\"readiness\" type=\"button\">Readiness</"
    ∷ "button>\n"
    ∷ "<button class=\"tab\" data-tab-target=\"config\" type=\"button\">Config</button>\n"
    ∷ "<button class=\"tab\" data-tab-target=\"browser\" type=\"button\">Browser</button>\n"
    ∷ "<button class=\"tab\" data-tab-target=\"request-preview\" type=\"button\">Request prev"
    ∷ "iew</button>\n"
    ∷ "<button class=\"tab\" data-tab-target=\"reconcile\" type=\"button\">Reconcile</button>"
    ∷ "\n" ∷ "</nav>\n" ∷ "<section class=\"tab-panel active\" id=\"readiness\">\n"
    ∷ "<article class=\"panel\"><div class=\"panel-head\"><div><h2>Setup status</h2><p class="
    ∷ "\"muted\">Confirms database, upstream API, auto-monitoring, and current request health"
    ∷ ".</p></div><span id=\"ready-badge\" class=\"badge\">Loading</span></div><div id=\"stat"
    ∷ "us\" class=\"cards muted\">Loading diagnostics...</div></article>\n" ∷ "</section>\n"
    ∷ "<section class=\"tab-panel\" id=\"config\">\n"
    ∷ "<article class=\"panel\"><div class=\"panel-head\"><div><h2>Plugin config</h2><p class"
    ∷ "=\"muted\">BookWarehouse connection, request defaults, and monitoring behavior live in"
    ∷ " this plugin database.</p></div><span id=\"config-state\" class=\"badge\">Loading</spa"
    ∷ "n></div><form id=\"config-form\" class=\"config-grid\"><label>Base URL<input id=\"cfg-"
    ∷ "base-url\" placeholder=\"https://bookwarehouse.domain.com\"></label><label>API key<inp"
    ∷ "ut id=\"cfg-api-key\" type=\"password\" placeholder=\"Leave blank to keep current key"
    ∷ "\"></label><label>Default cover size<select id=\"cfg-cover-size\"><option value=\"medi"
    ∷ "um\">Medium</option><option value=\"original\">Original</option><option value=\"thumbn"
    ∷ "ail\">Thumbnail</option></select></label><label>Request quality profile<input id=\"cfg"
    ∷ "-quality-profile\" placeholder=\"Optional upstream profile\"></label><label class=\"ch"
    ∷ "eck span-all\"><input id=\"cfg-auto\" type=\"checkbox\"> Enable auto monitoring</label"
    ∷ "><button type=\"submit\">Save config</button></form></article>\n" ∷ "</section>\n"
    ∷ "<section class=\"tab-panel\" id=\"browser\">\n"
    ∷ "<article class=\"panel\"><div class=\"panel-head\"><div><h2>Backend browser</h2><p cla"
    ∷ "ss=\"muted\">Search BookWarehouse before changing portal routing or request policy.</p"
    ∷ "></div><span id=\"search-state\" class=\"badge\">Idle</span></div><form id=\"search-fo"
    ∷ "rm\" class=\"row\"><input id=\"q\" value=\"foundation\" placeholder=\"Search title or "
    ∷ "author\" aria-label=\"Search query\"><button type=\"submit\">Test search</button></for"
    ∷ "m><div class=\"browser-shell\"><div id=\"search-summary\" class=\"info-grid\"><div cla"
    ∷ "ss=\"diag\"><strong>Ready</strong><span>Search results will render here as operator-fa"
    ∷ "cing cards instead of raw JSON.</span></div></div><div id=\"search-results\" class=\"r"
    ∷ "esult-grid\"><div class=\"empty-state\">No test run yet.</div></div></div></article>\n"
    ∷ "</section>\n" ∷ "<section class=\"tab-panel\" id=\"request-preview\">\n"
    ∷ "<article class=\"panel\"><div class=\"panel-head\"><div><h2>Request preview</h2><p cla"
    ∷ "ss=\"muted\">Build the expected upstream payload before enabling request forwarding fo"
    ∷ "r users.</p></div><span id=\"preview-state\" class=\"badge\">Idle</span></div><form id"
    ∷ "=\"request-preview-form\" class=\"preview-grid\"><input id=\"preview-title\" placehold"
    ∷ "er=\"Title\" aria-label=\"Title\"><input id=\"preview-authors\" placeholder=\"Authors,"
    ∷ " comma separated\" aria-label=\"Authors\"><input id=\"preview-isbn\" placeholder=\"ISB"
    ∷ "N\" aria-label=\"ISBN\"><input id=\"preview-format\" placeholder=\"Format preference\""
    ∷ " aria-label=\"Format preference\"><label class=\"check\"><input id=\"preview-auto\" ty"
    ∷ "pe=\"checkbox\"> Auto-monitor</label><button type=\"submit\">Build payload</button></f"
    ∷ "orm><div id=\"preview-summary\" class=\"info-grid\"><div class=\"diag\"><strong>Expect"
    ∷ "ed payload</strong><span>Fill in the fields above to preview the upstream request body"
    ∷ ".</span></div></div></article>\n" ∷ "</section>\n"
    ∷ "<section class=\"tab-panel\" id=\"reconcile\">\n"
    ∷ "<article class=\"panel\"><div class=\"panel-head\"><div><h2>Reconcile dashboard</h2><p"
    ∷ " class=\"muted\">Non-terminal request states should be checked against BookWarehouse a"
    ∷ "nd the scheduled reconciler.</p></div></div><div id=\"reconcile-output\" class=\"cards"
    ∷ " muted\">Loading request stats...</div></article>\n" ∷ "</section>\n"
    ∷ "<section class=\"panel\"><h2>Request triage</h2><div class=\"triage-grid\">\n"
    ∷ "<div><h3>Upstream conflicts</h3><p>Authentication, schema, duplicate request, and qual"
    ∷ "ity-profile errors are upstream contract problems; confirm with test search before cha"
    ∷ "nging portal routing.</p></div>\n"
    ∷ "<div><h3>Reconcile stuck requests</h3><p>Rows stuck in non-terminal states should be c"
    ∷ "hecked against the BookWarehouse request id and the scheduled reconciler status.</p></"
    ∷ "div>\n"
    ∷ "<div><h3>Auto monitoring</h3><p>When auto monitoring is enabled, verify the configured"
    ∷ " quality profile and expected payload before assuming a missing ebook is a portal issu"
    ∷ "e.</p></div>\n" ∷ "</div></section>\n"
    ∷ "<section class=\"panel\"><h2>Operations checklist</h2><ul><li>Configure <code>database"
    ∷ "_url</code>, <code>base_url</code>, and <code>api_key</code>.</li><li>Confirm this bac"
    ∷ "kend is selected by the Ebooks portal.</li><li>Use test search to validate BookWarehou"
    ∷ "se API access.</li><li>Check request stats before assuming the portal is at fault.</li"
    ∷ "></ul></section>\n" ∷ "</main>\n" ∷ []
