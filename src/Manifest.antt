-- ===== src/Manifest.antt =====
-- loadManifest of cmd/silo-plugin-bookwarehouse-ebook/main.go.
use continuum_plugin_bookwar.Prelude.{String, List, [], ◌∷◌, ◌++◌, Bytes, codes}
use continuum_plugin_bookwar.Result.{Result, ok, err}
use continuum_plugin_bookwar.World.{on_result}

pub record SupportedPlatform : Type 0 where
  pub os : String
  pub arch : String

-- the fields of a PluginManifest that loadManifest reads or sets
pub record PluginManifest : Type 0 where
  pub checksum : Bytes
  pub supported_platforms : List SupportedPlatform

-- What the machine and libraries give: the parsed manifest, os.Executable, os.ReadFile, a path in
-- quotes, and the SHA-256 of some bytes in hexadecimal; GOOS and GOARCH.
pub record Machine : Type 0 where
  pub embedded : Result PluginManifest
  pub executable : Result String
  pub read_file : String → Result Bytes
  pub quoted : String → Bytes
  pub hex_sum : Bytes → Bytes
  pub platform : SupportedPlatform

-- the machine's platform when the manifest names none
platforms_or : SupportedPlatform → List SupportedPlatform → List SupportedPlatform
platforms_or p [] = p ∷ []
platforms_or p (q ∷ qs) = q ∷ qs

with_binary : Machine → PluginManifest → Bytes → PluginManifest
unfolding platforms_or
with_binary m manifest binary = record {
  checksum = m.hex_sum binary;
  supported_platforms = platforms_or m.platform manifest.supported_platforms;
}

load_manifest : Machine → Result PluginManifest
unfolding with_binary
load_manifest m =
    on_result m.embedded (λ e. err (codes "load embedded manifest: " ++ e))
      (λ manifest.
        on_result m.executable (λ e. err (codes "resolve executable path: " ++ e))
          (λ path.
            on_result (m.read_file path)
              (λ e. err (codes "read executable " ++ (m.quoted path ++ (codes ": " ++ e))))
              (λ binary. ok (with_binary m manifest binary))))
