-- ===== src/Site/Theme.antt =====
-- adminTheme of internal/server/server.go: the theme that the admin page puts in an attribute.
use continuum_plugin_bookwar.Prelude.{
  ℕ, ◌≢◌, String, Bool-cases, inl, inr, [], ◌∷◌, ◌++◌, Bytes, codes, utf8, ◌==◌, eqb, arith, All,
  All-append, if◌then◌else◌,
}

-- html.EscapeString of one byte
escaped : ℕ → Bytes
escaped c =
    if eqb c b'&'
    then codes "&amp;"
    else if eqb c b'\''
    then codes "&#39;"
    else if eqb c b'<'
    then codes "&lt;"
    else if eqb c b'>'
    then codes "&gt;"
    else if eqb c b'"'
    then codes "&#34;"
    else c ∷ []

unfoldable pub escape_html : Bytes → Bytes
unfolding escaped
escape_html [] = []
escape_html (c ∷ s) = escaped c ++ escape_html s

-- the header, else the parameter, else "default"
unfoldable pub chosen_theme : String → String → String
chosen_theme header param =
    if header == "" then if param == "" then "default" else param else header

unfoldable pub admin_theme : String → String → Bytes
unfolding escape_html chosen_theme
admin_theme header param = escape_html (utf8 (chosen_theme header param))

-- A byte that does not end an attribute's value, or start a tag.
abbrev pub InAttribute : ℕ → Type 0
InAttribute c = (c ≢ b'"') × (c ≢ b'<') × (c ≢ b'>')

escaped-InAttribute : (c : ℕ) → All InAttribute (escaped c)
unfolding escaped
escaped-InAttribute c = elim (Bool-cases (eqb c b'&')) [
  | inl a ↦ rw a (omega arith)
  | inr a ↦ elim (Bool-cases (eqb c b'\'')) [
    | inl q ↦ rw (a, q) (omega arith)
    | inr q ↦ elim (Bool-cases (eqb c b'<')) [
      | inl l ↦ rw (a, q, l) (omega arith)
      | inr l ↦ elim (Bool-cases (eqb c b'>')) [
        | inl g ↦ rw (a, q, l, g) (omega arith)
        | inr g ↦ elim (Bool-cases (eqb c b'"')) [
          | inl d ↦ rw (a, q, l, g, d) (omega arith)
          | inr d ↦
              rw (a, q, l, g, d) ((λ e. ground arith, λ e. ground arith, λ e. ground arith), tt)
        ]
      ]
    ]
  ]
]

escape_html-InAttribute : (s : Bytes) → All InAttribute (escape_html s)
unfolding escape_html
escape_html-InAttribute [] = tt
escape_html-InAttribute (c ∷ s) =
    All-append InAttribute (escaped c) (escape_html s) (escaped-InAttribute c)
      (escape_html-InAttribute s)

-- The theme of the admin page, which a header or a parameter chooses, cannot end its attribute.
pub admin_theme-InAttribute : (header param : String) → All InAttribute (admin_theme header param)
unfolding admin_theme
admin_theme-InAttribute header param = escape_html-InAttribute (utf8 (chosen_theme header param))
