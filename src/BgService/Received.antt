-- ===== src/BgService/Received.antt =====
-- What the proxy holds once a configuration is received.
use aralez.Prelude.{◌≡◌, refl, Option, none, some, [], nat_eq, list_eq}
use mathlib.Core.Option
use aralez.Text.{Str}
use aralez.DashMap.{get}
use aralez.Structs.{PathHeaders, Headers, UpstreamsDashMap, Configuration}
use aralez.Lb.{Lb}
use aralez.Tools.{clone_idmap_into}
use aralez.Tools.Clone.{IsUpstreams, reset, clone_dashmap_into-eq-reset}
use aralez.BgService.{with_global, receive}

-- The headers received for a host: its entry, or an empty one where it only has upstreams.
abbrev pub received_at : UpstreamsDashMap → Headers → Str → Option PathHeaders
received_at upstreams headers host = elim (get host headers) [
  | some path_headers ↦ some path_headers
  | none ↦ elim (get host upstreams) [ none ↦ none | some _ ↦ some [] ]
]

-- The headers that a request can get: for each host the received ones, merged path by path with
-- the received global ones.
abbrev pub installed_at : UpstreamsDashMap → Headers → Str → Str → Option PathHeaders
installed_at upstreams headers global_key host =
    Option.map (with_global (received_at upstreams headers global_key))
      (received_at upstreams headers host)

abbrev installed_or :
    Option PathHeaders → Option PathHeaders → Option PathHeaders → Option PathHeaders
installed_or g i o = elim o [ some ph ↦ some (with_global g ph) | none ↦ i ]

-- A received configuration replaces the upstreams: where no host of it stands twice and no path
-- twice under a host, both maps of upstreams are the received one with counters of 0, and the id
-- map is built from it. The parameters are the received ones, and the main file's stay.
pub receive-reset :
    (sha_hex : Str → Str) (ss : Configuration) (lb : Lb)
    → IsUpstreams ss.upstreams
    → ((receive sha_hex ss lb).ump_full ≡ reset ss.upstreams)
      × ((receive sha_hex ss lb).ump_upst ≡ reset ss.upstreams)
      × ((receive sha_hex ss lb).ump_byid ≡ clone_idmap_into sha_hex ss.upstreams [])
      × ((receive sha_hex ss lb).extraparams ≡ ss.extraparams)
      × ((receive sha_hex ss lb).config ≡ lb.config)
unfolding receive clone_idmap_into
receive-reset sha_hex ss lb h = (
  clone_dashmap_into-eq-reset ss.upstreams lb.ump_full h,
  clone_dashmap_into-eq-reset ss.upstreams lb.ump_upst h,
  refl,
  refl,
  refl,
)
