-- ===== src/Site/Page/Script.antt =====
-- The script of the admin page, internal/server/server.go.
use continuum_plugin_bookwar.Prelude.{String, List, [], ◌∷◌}

-- what shows an answer
abbrev pub script_show : List String
script_show =
    "<script>\n"
    ∷ "const statusEl=document.getElementById(\"status\"), searchState=document.getElementByI"
    ∷ "d(\"search-state\"), searchSummary=document.getElementById(\"search-summary\"), search"
    ∷ "Results=document.getElementById(\"search-results\"), reconcileOutput=document.getEleme"
    ∷ "ntById(\"reconcile-output\"), previewSummary=document.getElementById(\"preview-summary"
    ∷ "\"), previewState=document.getElementById(\"preview-state\"), configState=document.get"
    ∷ "ElementById(\"config-state\");\n"
    ∷ "const hostToken=new URLSearchParams(location.search).get(\"token\")||\"\";\n"
    ∷ "function headers(){return hostToken?{Authorization:\"Bearer \"+hostToken}:{}}\n"
    ∷ "function badge(ok){return '<span class=\"badge '+(ok?'ok':'bad')+'\">'+(ok?'OK':'Needs"
    ∷ " attention')+'</span>'}\n"
    ∷ "function esc(v){return String(v??\"\").replace(/[&<>\"']/g,c=>({\"&\":\"&amp;\",\"<\":"
    ∷ "\"&lt;\",\">\":\"&gt;\",'\"':\"&quot;\",\"'\":\"&#39;\"}[c]))}\n"
    ∷ "function activateTab(id){document.querySelectorAll(\".tab\").forEach(b=>b.classList.to"
    ∷ "ggle(\"active\",b.dataset.tabTarget===id));document.querySelectorAll(\".tab-panel\").f"
    ∷ "orEach(p=>p.classList.toggle(\"active\",p.id===id))}\n"
    ∷ "document.querySelectorAll(\".tab\").forEach(b=>b.addEventListener(\"click\",()=>activa"
    ∷ "teTab(b.dataset.tabTarget)))\n"
    ∷ "function statCard(label,value,ok){return '<div class=\"diag\">'+badge(ok)+'<strong>'+e"
    ∷ "sc(label)+'</strong><span>'+esc(value)+'</span></div>'}\n"
    ∷ "function renderStrip(cells){const strip=document.getElementById(\"status-strip\");if(!"
    ∷ "strip)return;strip.replaceChildren();for(const c of cells){const cell=document.createE"
    ∷ "lement(\"div\");cell.className=\"strip-cell \"+(c.ok?\"ok\":\"bad\");if(c.detail)cell."
    ∷ "title=c.detail;const dot=document.createElement(\"span\");dot.className=\"strip-dot\";"
    ∷ "const label=document.createElement(\"strong\");label.textContent=c.label;const note=do"
    ∷ "cument.createElement(\"span\");note.textContent=c.ok?\"OK\":\"Check\";cell.append(dot,"
    ∷ "label,note);strip.appendChild(cell)}}\n"
    ∷ "async function readMaybeJSON(r){const text=await r.text();const type=r.headers.get(\"c"
    ∷ "ontent-type\")||\"\";if(type.includes(\"application/json\")){try{return text?JSON.pars"
    ∷ "e(text):{}}catch{}}return {error:text||r.statusText,raw:text}}\n"
    ∷ "function normalizeCoverSize(v){switch(String(v||\"\").trim().toLowerCase()){case\"thum"
    ∷ "bnail\":case\"small\":return\"thumbnail\";case\"original\":case\"large\":return\"origi"
    ∷ "nal\";case\"medium\":return\"medium\";default:return\"medium\"}}\n"
    ∷ "function formatList(list){return Array.isArray(list)&&list.length?list.join(', '):'Not"
    ∷ " provided'}\n"
    ∷ "function coverHTML(src,label){if(src){return '<img src=\"'+esc(src)+'\" alt=\"'+esc(la"
    ∷ "bel)+'\">'}return '<div class=\"cover-fallback\">BOOK</div>'}\n"
    ∷ "function renderInfoGrid(items){return items.map(item=>'<div class=\"diag\"><strong>'+e"
    ∷ "sc(item.label)+'</strong><span>'+esc(item.value)+'</span></div>').join('')}\n"
    ∷ "function renderSearchResults(data,query){const items=Array.isArray(data.items)?data.it"
    ∷ "ems:[];searchState.textContent=items.length?items.length+' results':'No matches';searc"
    ∷ "hSummary.innerHTML=renderInfoGrid([{label:'Query',value:query||'foundation'},{label:'R"
    ∷ "esults shown',value:items.length},{label:'Search status',value:data.ok===false?(data.m"
    ∷ "essage||'Failed'):(data.message||'Completed')}]);searchResults.innerHTML=items.length?"
    ∷ "items.map(item=>'<article class=\"result-card\">'+coverHTML(item.cover_url,item.title|"
    ∷ "|'Cover')+'<div class=\"result-body\"><strong>'+esc(item.title||'Untitled')+'</strong>"
    ∷ "<span class=\"muted\">'+esc(formatList(item.authors))+'</span><div class=\"meta-line\""
    ∷ ">'+esc(item.source||'Unknown source')+(item.year?' · '+esc(item.year):'')+(item.langua"
    ∷ "ge?' · '+esc(item.language):'')+'</div><div class=\"chip-row\">'+(Array.isArray(item.f"
    ∷ "ormats)?item.formats.map(format=>'<span class=\"chip\">'+esc(format)+'</span>').join('"
    ∷ "'):'')+'</div></div></article>').join(''):'<div class=\"empty-state\">No books matched"
    ∷ " this search.</div>'}\n"
    ∷ "function renderPreview(payload){previewState.textContent='Built';previewSummary.innerH"
    ∷ "TML=renderInfoGrid([{label:'Title',value:payload.title||'Not provided'},{label:'Author"
    ∷ "s',value:payload.authors.length?payload.authors.join(', '):'Not provided'},{label:'ISB"
    ∷ "N',value:payload.isbn||'Not provided'},{label:'Format preference',value:payload.format"
    ∷ "_pref||'Upstream default'},{label:'Auto-monitor',value:payload.auto_monitor?'Enabled':"
    ∷ "'Disabled'}])}\n" ∷ []

-- what calls the plugin, up to the end of the page
abbrev pub script_calls : List String
script_calls =
    "async function loadConfig(){try{const r=await fetch(\"./api/v1/admin/config\",{headers"
    ∷ ":headers()});const d=await readMaybeJSON(r);if(!r.ok)throw new Error(d.error||r.status"
    ∷ "Text);document.getElementById(\"cfg-base-url\").value=d.base_url||\"https://bookwareho"
    ∷ "use.domain.com\";document.getElementById(\"cfg-cover-size\").value=normalizeCoverSize("
    ∷ "d.default_cover_size);document.getElementById(\"cfg-quality-profile\").value=d.request"
    ∷ "_quality_profile||\"\";document.getElementById(\"cfg-auto\").checked=!!d.enable_auto_m"
    ∷ "onitoring;configState.textContent=\"Loaded\"}catch(e){configState.textContent=\"Unavai"
    ∷ "lable\"}}\n"
    ∷ "async function load(){try{const r=await fetch(\"./api/v1/admin/diagnostics\",{headers:"
    ∷ "headers()});const d=await r.json();const ready=d.configured&&d.database?.ok&&d.upstrea"
    ∷ "m?.ok;document.getElementById(\"ready-badge\").textContent=ready?\"Ready\":\"Needs att"
    ∷ "ention\";statusEl.innerHTML=statCard(\"Configured\",d.configured?\"base_url, api_key, "
    ∷ "database_url applied\":\"missing required configuration\",d.configured)+statCard(\"Dat"
    ∷ "abase\",d.database?.message||\"not configured\",d.database?.ok)+statCard(\"BookWarehou"
    ∷ "se\",d.upstream?.message||\"not configured\",d.upstream?.ok)+statCard(\"Auto monitorin"
    ∷ "g\",String(d.auto_monitoring_enabled),true);const req=d.requests||{};reconcileOutput.i"
    ∷ "nnerHTML=statCard(\"Total requests\",req.total||0,true)+statCard(\"Active\",req.active"
    ∷ "||0,true)+statCard(\"Failed\",req.failed||0,(req.failed||0)===0)+statCard(\"Imported\""
    ∷ ",req.imported||0,true)+statCard(\"With errors\",req.with_errors||0,(req.with_errors||0"
    ∷ ")===0)+statCard(\"Unsubmitted\",req.unsubmitted||0,(req.unsubmitted||0)===0)+statCard("
    ∷ "\"Quality profile\",d.request_quality_profile||\"upstream default\",true)+statCard(\"B"
    ∷ "ase URL\",d.base_url||\"not set\",Boolean(d.base_url));renderStrip([{label:'DB',ok:!!d"
    ∷ ".database?.ok,detail:d.database?.message},{label:'Configured',ok:!!d.configured,detail"
    ∷ ":'base_url + api_key + database_url'},{label:'BookWarehouse',ok:!!d.upstream?.ok,detai"
    ∷ "l:d.upstream?.message},{label:'Auto monitor',ok:!!d.auto_monitoring_enabled,detail:d.a"
    ∷ "uto_monitoring_enabled?'enabled':'disabled'},{label:'Failed reqs',ok:(req.failed||0)=="
    ∷ "=0,detail:(req.failed||0)+' failed'}])}catch(e){statusEl.textContent=String(e);reconci"
    ∷ "leOutput.innerHTML='<div class=\"empty-state\">'+esc(String(e))+'</div>';renderStrip(["
    ∷ "{label:'Diagnostics',ok:false,detail:String(e)}])}}\n"
    ∷ "document.getElementById(\"config-form\").addEventListener(\"submit\",async e=>{e.preve"
    ∷ "ntDefault();configState.textContent=\"Saving\";try{const body={base_url:document.getEl"
    ∷ "ementById(\"cfg-base-url\").value.trim(),api_key:document.getElementById(\"cfg-api-key"
    ∷ "\").value,default_cover_size:document.getElementById(\"cfg-cover-size\").value||\"medi"
    ∷ "um\",request_quality_profile:document.getElementById(\"cfg-quality-profile\").value.tr"
    ∷ "im(),enable_auto_monitoring:document.getElementById(\"cfg-auto\").checked};const r=awa"
    ∷ "it fetch(\"./api/v1/admin/config\",{method:\"PATCH\",headers:{...headers(),\"Content-T"
    ∷ "ype\":\"application/json\"},body:JSON.stringify(body)});const d=await readMaybeJSON(r)"
    ∷ ";if(!r.ok)throw new Error(d.error||r.statusText);document.getElementById(\"cfg-api-key"
    ∷ "\").value=\"\";configState.textContent=\"Saved\";await loadConfig()}catch(err){configS"
    ∷ "tate.textContent=\"Error\"}})\n"
    ∷ "document.getElementById(\"search-form\").addEventListener(\"submit\",async e=>{e.preve"
    ∷ "ntDefault();const rawQuery=document.getElementById(\"q\").value||\"foundation\";search"
    ∷ "State.textContent=\"Searching\";searchResults.innerHTML='<div class=\"empty-state\">Se"
    ∷ "arching BookWarehouse...</div>';try{const q=encodeURIComponent(rawQuery);const r=await"
    ∷ " fetch(\"./api/v1/admin/test-search?q=\"+q,{headers:headers()});const d=await readMayb"
    ∷ "eJSON(r);if(!r.ok)throw new Error(d.error||r.statusText);renderSearchResults(d,rawQuer"
    ∷ "y)}catch(err){searchState.textContent=\"Error\";searchSummary.innerHTML='';searchResul"
    ∷ "ts.innerHTML='<div class=\"empty-state\">'+esc(String(err))+'</div>'}})\n"
    ∷ "document.getElementById(\"request-preview-form\").addEventListener(\"submit\",e=>{e.pr"
    ∷ "eventDefault();const payload={title:document.getElementById(\"preview-title\").value.t"
    ∷ "rim(),authors:document.getElementById(\"preview-authors\").value.split(\",\").map(v=>v"
    ∷ ".trim()).filter(Boolean),isbn:document.getElementById(\"preview-isbn\").value.trim(),f"
    ∷ "ormat_pref:document.getElementById(\"preview-format\").value.trim(),auto_monitor:docum"
    ∷ "ent.getElementById(\"preview-auto\").checked};renderPreview(payload)})\n"
    ∷ "load();loadConfig();\n" ∷ "</script>\n" ∷ "</body></html>" ∷ []
