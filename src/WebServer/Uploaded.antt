-- ===== src/WebServer/Uploaded.antt =====
-- When an upload takes effect, and what an issued token is worth.
use aralez.Prelude.{ℕ, ◌≡◌, ◌↔◌, true, Option, none, some, ltb, if◌then◌else◌, nat_eq, list_eq}
use mathlib.Core.Option
use aralez.Text.{Str, bytes}
use aralez.DashMap.{DashMap, contains_key}
use aralez.Structs.{Config, Configuration}
use aralez.HealthCheck.{Net}
use aralez.Jwt.{Claims, Decoders, is_expired}
use aralez.ParceYaml.{Globals}
use aralez.ParceYaml.Load.{ok, Yaml, Disk, load_configuration}
use aralez.WebServer.{AppState, Applied}

module _ (net : Net) (yaml : Yaml) (disk : Disk) (st : AppState) (params : DashMap Str Str)
    (content : Str) (g : Globals) where
  abbrev loaded : Option Configuration
  loaded = (load_configuration net yaml disk content (bytes "content") g).0

  abbrev IsAccepted : Configuration → Type 0
  IsAccepted c =
      (st.config_api_enabled ≡ true)
      × ((parsed : Config) × (yaml.config content ≡ ok parsed))
      × (loaded ≡ some c)

  -- What is sent and saved is as it should be.
  abbrev IsRight : Applied → Type 0
  IsRight a =
      ((c : Configuration) → (a.sent ≡ some c) ↔ IsAccepted c)
      × (a.saved ≡ (
          if contains_key (bytes "save") params
          then Option.map (λ _. (st.upstreams_file, content)) a.sent
          else none))

  abbrev untouched : Applied
  untouched = record { saved = none; sent = none; globals = g }

-- What the encoder and the decoder of tokens promise of a token that is issued: it decodes to its
-- claims, and its expiry is read from it.
abbrev pub Decodes : Decoders → Claims → Str → Str → Type 0
Decodes dec claims secret token =
    (dec.decode token secret ≡ some claims)
    × ((now : ℕ) → is_expired dec token now ≡ some (ltb claims.exp now))
