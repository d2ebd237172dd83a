-- ===== src/Site/Page.antt =====
-- The admin page of internal/server/server.go: handleAdminHome writes the theme and the style sheet
-- into a constant text.
pub mod Markup
pub mod Script
pub mod Style
use continuum_plugin_bookwar.Prelude.{◌≡◌, refl, String, List, [], ◌∷◌, ◌++◌, Bytes, utf8, All}
use continuum_plugin_bookwar.Site.Theme.{admin_theme, InAttribute, admin_theme-InAttribute}
use continuum_plugin_bookwar.Site.Page.Markup.{before_theme, before_style, markup}
use continuum_plugin_bookwar.Site.Page.Script.{script_show, script_calls}
use continuum_plugin_bookwar.Site.Page.Style.{admin_theme_css}

-- the bytes of a text that is cut into pieces
pub joined : List String → Bytes
joined [] = []
joined (s ∷ ss) = utf8 s ++ joined ss

-- the text that follows the theme
after_theme : Bytes
after_theme =
    joined before_style
    ++ (joined admin_theme_css ++ (joined markup ++ (joined script_show ++ joined script_calls)))

-- the body that handleAdminHome writes
pub admin_home_page : Bytes → Bytes
unfolding after_theme
admin_home_page theme = joined before_theme ++ (theme ++ after_theme)

-- The theme that a request names changes the page at one place only, where it is the value of an
-- attribute that it cannot end.
pub admin_home_page-InAttribute :
    (before after : Bytes) × ((header param : String)
      → (admin_home_page (admin_theme header param) ≡ before ++ (admin_theme header param ++ after))
        × All InAttribute (admin_theme header param))
unfolding admin_home_page
admin_home_page-InAttribute =
    (joined before_theme, after_theme, λ header param. (refl, admin_theme-InAttribute header param))
